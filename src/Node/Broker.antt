-- ===== src/Node/Broker.antt =====
-- node/queue.go: `QueueBroker`, which joins the queue to the gates of the agents.
pub mod Links
pub mod Moves
pub mod Works
use a4s.Prelude.{Bool, true, false, not, Option, none, some, String, if◌then◌else◌, Result, ok, err}
use a4s.Types.World.{Time}
use a4s.Node.Queue
use a4s.Node.Queue.{Queue, QueueTask}
use a4s.Node.Agents.{Agents, may_claim}
use a4s.Node.Agents.Tokens.{hold_task, release_task}

-- `initialized` is whether neither pointer is nil.
pub record QueueBroker : Type 0 where
  pub queue : Queue
  pub agents : Agents
  pub initialized : Bool

abbrev pub not_initialized : String
not_initialized = "queue broker is not initialized"

-- The instance holds what it was handed.
abbrev pub hold_answer : Agents → String → Result (Option QueueTask) → Agents
hold_answer a allocation (ok (some t)) = hold_task a allocation t.id
hold_answer a allocation _ = a

-- The instance is free unless the queue refused.
abbrev pub free_slot : Agents → String → Result (Unit {0}) → Agents
free_slot a allocation (ok _) = release_task a allocation
free_slot a allocation (err _) = a

unfoldable pub claim :
    QueueBroker → Time → Result (Unit {0}) → String → QueueBroker × Result (Option QueueTask)
unfolding may_claim Queue.claim hold_task
claim b now saved allocation =
    if not b.initialized then (b, err not_initialized) else elim (may_claim b.agents allocation) [
      | err e ↦ (b, err e)
      | ok _ ↦
          let (q, answer) = Queue.claim b.queue now saved allocation in
          (record b { queue = q; agents = hold_answer b.agents allocation answer }, answer)
    ]

unfoldable pub ack :
    QueueBroker → Result (Unit {0}) → String → String → QueueBroker × Result (Unit {0})
unfolding Queue.ack release_task
ack b saved allocation id =
    if not b.initialized
    then (b, err not_initialized)
    else let (q, answer) = Queue.ack b.queue saved allocation id in
      (record b { queue = q; agents = free_slot b.agents allocation answer }, answer)

unfoldable pub requeue :
    QueueBroker → Result (Unit {0}) → String → String → QueueBroker × Result (Unit {0})
unfolding Queue.requeue release_task
requeue b saved allocation id =
    if not b.initialized
    then (b, err not_initialized)
    else let (q, answer) = Queue.requeue b.queue saved allocation id in
      (record b { queue = q; agents = free_slot b.agents allocation answer }, answer)

unfoldable pub release : QueueBroker → Result (Unit {0}) → String → QueueBroker × Result (Unit {0})
unfolding Queue.release_allocation release_task
release b saved allocation =
    if not b.initialized
    then (b, ok tt)
    else let (q, answer) = Queue.release_allocation b.queue saved allocation in
      (record b { queue = q; agents = free_slot b.agents allocation answer }, answer)
