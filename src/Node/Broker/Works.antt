-- ===== src/Node/Broker/Works.antt =====
-- node/queue.go and node/agent.go: sequences of the broker's operations, and what a drain reports.
use a4s.Prelude.{
  ◌≡◌, sym, ◌∙◌, ap, subst, true, not, String, ◌==◌, Result, ok, ◌>>=◌, Result-cases, if_intro,
  is_some, Bool-cases, inl, inr, none-some, err_ok, ok-injective,
}
use a4s.Prelude.Map
use a4s.Prelude.Map.{Map, get-put, get-delete}
use a4s.Prelude.Map.Keys.{get-put-some}
use a4s.Types.World.{Time}
use a4s.Types.Action.{Action}
use a4s.Types.Evidence.{Evidence}
use a4s.Node.Queue
use a4s.Node.Queue.{Queue, TaskClaim, first_waiting, taken, let_go}
use a4s.Node.Queue.Consistent.{let_go-Consistent}
use a4s.Node.Queue.Steps.{
  claim-Consistent, enqueue_step-Consistent, ack_step-Consistent, requeue_step-Consistent,
}
use a4s.Node.Agents.{Agents, new_agents, may_claim, drain}
use a4s.Node.Broker.{QueueBroker, claim, ack, requeue, release}
use a4s.Node.Broker.Links.{Linked, Joined}
use a4s.Node.Broker.Moves.{queue_claim-Linked, ack-Linked, requeue-Linked, release-Linked}

-- Operations of the broker while a claim can be written; an acknowledgement names a task that is
-- there. A producer adds tasks, and an instance may be drained. Anything else that is done with the
-- gates, as reserving a budget, granting tools or calling them, leaves the tasks held as they are.
pub data Works (b : QueueBroker) : QueueBroker → Type 0 where
  start : Works b b
  enqueues :
      {c : QueueBroker} (now : Time) (saved : Result (Unit {0})) (id payload : String)
      → Works b c
      → Works b (record c { queue = (Queue.enqueue c.queue now saved id payload).0 })
  claims :
      {c : QueueBroker} (now : Time) (allocation : String)
      → Works b c
      → Works b (claim c now (ok tt) allocation).0
  acks :
      {c : QueueBroker} (saved : Result (Unit {0})) (allocation id : String)
      → Works b c
      → is_some (Map.get c.queue.tasks id) ≡ true
      → Works b (ack c saved allocation id).0
  requeues :
      {c : QueueBroker} (saved : Result (Unit {0})) (allocation id : String)
      → Works b c
      → Works b (requeue c saved allocation id).0
  releases :
      {c : QueueBroker} (saved : Result (Unit {0})) (allocation : String)
      → Works b c
      → Works b (release c saved allocation).0
  drains :
      {c : QueueBroker} (action : Action) (agents : Agents) (e : Evidence)
      → Works b c
      → drain c.agents action ≡ ok (agents, e)
      → Works b (record c { agents = agents })
  serves :
      {c : QueueBroker} (agents : Agents)
      → Works b c
      → agents.tasks ≡ c.agents.tasks
      → Works b (record c { agents = agents })

enqueue-Linked :
    (q : Queue) (slots : Map String) (now : Time) (saved : Result (Unit {0})) (id payload : String)
    → Linked q.tasks slots
    → Linked (Queue.enqueue q now saved id payload).0.tasks slots
unfolding Queue.enqueue
enqueue-Linked q slots now saved id payload l = elim (Bool-cases (id == "")) [
  | inl e ↦ rw e l
  | inr e ↦ elim (Bool-cases (is_some (Map.get q.tasks id))) [
    | inl there ↦ rw (e, there) l
    | inr new ↦
        rw (e, new)
          (λ k t d h is. elim (get-put-some q.tasks id k _ t h) [
            | inl (_, kept) ↦ absurd (none-some (ap (λ x. x.claim) kept ∙ is))
            | inr (old, _) ↦ l k t d old is
          ])
  ]
]

drain-tasks :
    (a agents : Agents) (action : Action) (e : Evidence)
    → drain a action ≡ ok (agents, e)
    → a.tasks ≡ agents.tasks
unfolding drain ◌>>=◌
drain-tasks a agents action e h = elim (Bool-cases (action.target == "")) [
  | inl blank ↦ absurd (err_ok (rw (drain, blank) at h))
  | inr named ↦ ap (λ p. p.0.tasks) (ok-injective (rw (drain, named) at h))
]

abbrev After : {A : Type 0} → QueueBroker × A → Type 0
After p = Joined p.0

claim-Joined :
    (b : QueueBroker) (now : Time) (allocation : String)
    → Joined b
    → Joined (claim b now (ok tt) allocation).0
unfolding claim
claim-Joined b now allocation j =
    if_intro After (not b.initialized) j (elim (Result-cases (may_claim b.agents allocation)) [
      | inl (m, r) ↦ rw r j
      | inr (u, r) ↦ rw r (record {
        consistent = claim-Consistent b.queue now (ok tt) allocation j.consistent;
        linked = queue_claim-Linked b.queue b.agents now allocation j.consistent j.linked r;
      })
    ])

-- While claims can be written, the queue and the slots stay in step: an instance that the queue says
-- holds a task has exactly this task in its slot.
pub Works-Joined : {b c : QueueBroker} → Works b c → Joined b → Joined c
unfolding ack requeue release Queue.release_allocation
Works-Joined start j = j
Works-Joined (enqueues {c = c} now saved id payload w) j =
    let k = Works-Joined w j in
    record {
      consistent = enqueue_step-Consistent c.queue now saved id payload k.consistent;
      linked = enqueue-Linked c.queue c.agents.tasks now saved id payload k.linked;
    }
Works-Joined (claims {c = c} now allocation w) j = claim-Joined c now allocation (Works-Joined w j)
Works-Joined (acks {c = c} saved allocation id w there) j =
    let k = Works-Joined w j in
    if_intro After (not c.initialized) k (record {
      consistent = ack_step-Consistent c.queue saved allocation id k.consistent;
      linked = ack-Linked c.queue c.agents saved allocation id k.linked there;
    })
Works-Joined (requeues {c = c} saved allocation id w) j =
    let k = Works-Joined w j in
    if_intro After (not c.initialized) k (record {
      consistent = requeue_step-Consistent c.queue saved allocation id k.consistent;
      linked = requeue-Linked c.queue c.agents saved allocation id k.linked;
    })
Works-Joined (releases {c = c} saved allocation w) j =
    let k = Works-Joined w j in
    if_intro After (not c.initialized) k (record {
      consistent = let_go-Consistent c.queue k.consistent allocation;
      linked = release-Linked c.queue c.agents saved allocation k.linked;
    })
Works-Joined (drains {c = c} action agents e w h) j =
    let k = Works-Joined w j in
    record {
      consistent = k.consistent;
      linked =
          subst (λ slots. Linked c.queue.tasks slots) (drain-tasks c.agents agents action e h)
            k.linked;
    }
Works-Joined (serves {c = c} agents w same) j =
    let k = Works-Joined w j in
    record {
      consistent = k.consistent;
      linked = subst (λ slots. Linked c.queue.tasks slots) (sym same) k.linked;
    }

-- A broker over an empty queue, before any instance holds a task.
abbrev pub new_broker : String → String → QueueBroker
new_broker name workload = record {
  queue = Queue.new_queue name workload;
  agents = new_agents;
  initialized = true;
}
