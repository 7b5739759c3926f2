-- ===== src/Node/Queue.antt =====
-- node/queue.go: the durable work queue of a node. The mutex makes each operation one step; `now` is
-- the answer of the clock and `saved` is what `persist` answers, after the change in memory.
pub mod Consistent
pub mod Steps
pub mod Claims
pub mod Holds
pub mod Drains
pub mod Refusals
pub mod Files
use a4s.Prelude.{
  ℕ, suc, ◌+◌, ◌*◌, Bool, true, false, ◌&&◌, ◌||◌, not, Option, none, some, List, [], ◌∷◌, ◌++◌,
  String, ◌==◌, if◌then◌else◌, ltb, leb, eqb, is_some, Result, ok, err, ◌>>=◌, ◌>>◌, refuse,
}
use a4s.Prelude.Map
use a4s.Prelude.Map.{Map, count}
use a4s.Prelude.Map.Keys.{map_values}
use a4s.Types.World.{Time, before, is_zero_time}
use a4s.Types.Evidence.{Evidence, EvidenceKind}
use a4s.Kernel.Rules.{mem}

pub record TaskClaim : Type 0 where
  pub allocation : String
  pub expires_at : Time

-- `attempts` counts up from 0; a negative count in a file is not modelled.
pub record QueueTask : Type 0 where
  pub id : String
  pub payload : String
  pub enqueued_at : Time
  pub claim : Option TaskClaim
  pub attempts : ℕ

-- 0 stands for any limit or lease that is not positive.
pub record Queue : Type 0 where
  pub name : String
  pub workload : String
  pub max_attempts : ℕ
  pub lease : ℕ
  pub tasks : Map QueueTask
  pub order : List String

-- 15 minutes, in nanoseconds.
abbrev pub default_claim_lease : ℕ
default_claim_lease = 15 * 60 * 1000000000

abbrev pub default_max_attempts : ℕ
default_max_attempts = 3

unfoldable pub lease_time : Queue → ℕ
lease_time q = if ltb 0 q.lease then q.lease else default_claim_lease

unfoldable pub attempt_limit : Queue → ℕ
attempt_limit q = if ltb 0 q.max_attempts then q.max_attempts else default_max_attempts

-- `availableLocked`: no claim, or a claim whose lease has lapsed.
unfoldable pub available : Time → QueueTask → Bool
available now t = elim t.claim [
  | none ↦ true
  | some c ↦ not (is_zero_time c.expires_at) && not (before now c.expires_at)
]

-- `OpenQueue`, before it loads the file.
unfoldable pub new_queue : String → String → Queue
new_queue name workload = record {
  name = name;
  workload = workload;
  max_attempts = default_max_attempts;
  lease = default_claim_lease;
  tasks = Map.empty;
  order = [];
}

-- The loop of `load`, over the lines of the file. `unmarshal` is `json.Unmarshal` into a task.
unfoldable pub load : (unmarshal : String → Result QueueTask) → Queue → List String → Result Queue
load unmarshal q [] = ok q
load unmarshal q (line ∷ lines) = elim (unmarshal line) [
  | err _ ↦ err "decode queue task: %w"
  | ok t ↦
      if t.id == ""
      then err "queue holds a task with no id"
      else load unmarshal
          (record q {
            tasks = Map.put q.tasks t.id t;
            order = if is_some (Map.get q.tasks t.id) then q.order else q.order ++ t.id ∷ [];
          })
          lines
]

-- The lines that `persist` writes when it succeeds. `marshal` is `json.Marshal` of a task.
unfoldable pub lines_of : (marshal : QueueTask → String) → Map QueueTask → List String → List String
lines_of marshal tasks [] = []
lines_of marshal tasks (id ∷ order) =
    let rest = lines_of marshal tasks order in
    elim (Map.get tasks id) [ none ↦ rest | some t ↦ marshal t ∷ rest ]

unfoldable pub enqueue :
    Queue → Time → Result (Unit {0}) → String → String → Queue × Result (Unit {0})
enqueue q now saved id payload =
    if id == ""
    then (q, err "queue task requires an id")
    else if is_some (Map.get q.tasks id)
    then (q, ok tt)
    else (
      record q {
        tasks =
            Map.put q.tasks id (record {
              id = id;
              payload = payload;
              enqueued_at = now;
              claim = none;
              attempts = 0;
            });
        order = q.order ++ id ∷ [];
      },
      saved,
    )

-- The tests of `Depth` and of the loop in `Claim`.
unfoldable pub waits : Queue → Time → QueueTask → Bool
unfolding available attempt_limit
waits q now t = available now t && ltb t.attempts (attempt_limit q)

-- The first task in order that passes the tests of the loop in `Claim`.
unfoldable pub first_waiting : Queue → Time → List String → Option (String × QueueTask)
unfolding waits
first_waiting q now [] = none
first_waiting q now (id ∷ ids) =
    let later = first_waiting q now ids in
    elim (Map.get q.tasks id) [
      | none ↦ later
      | some t ↦ if waits q now t then some (id, t) else later
    ]

abbrev pub taken : Queue → Time → String → QueueTask → QueueTask
taken q now allocation t = record t {
  attempts = suc t.attempts;
  claim = some (record { allocation = allocation; expires_at = now + lease_time q });
}

-- A task that is handed out is changed in memory before it is written.
unfoldable pub claim : Queue → Time → Result (Unit {0}) → String → Queue × Result (Option QueueTask)
unfolding first_waiting lease_time ◌>>=◌
claim q now saved allocation =
    if allocation == ""
    then (q, err "claim requires an allocation")
    else elim (first_waiting q now q.order) [
      | none ↦ (q, ok none)
      | some (id, t) ↦ (
        record q { tasks = Map.put q.tasks id (taken q now allocation t) },
        saved >> ok (some (taken q now allocation t)),
      )
    ]

-- `task.Claim != nil && task.Claim.Allocation == allocation`
abbrev pub held_by : String → QueueTask → Bool
held_by allocation t = elim t.claim [ none ↦ false | some c ↦ c.allocation == allocation ]

-- `removeOrderLocked`: the first place of an id is taken out.
unfoldable pub remove_order : String → List String → List String
remove_order id [] = []
remove_order id (x ∷ xs) = let rest = remove_order id xs in if x == id then xs else x ∷ rest

unfoldable pub ack : Queue → Result (Unit {0}) → String → String → Queue × Result (Unit {0})
unfolding remove_order
ack q saved allocation id = elim (Map.get q.tasks id) [
  | none ↦ (q, ok tt)
  | some t ↦
      if not (held_by allocation t)
      then (q, err "allocation %q does not hold task %q")
      else (record q { tasks = Map.delete q.tasks id; order = remove_order id q.order }, saved)
]

unfoldable pub requeue : Queue → Result (Unit {0}) → String → String → Queue × Result (Unit {0})
requeue q saved allocation id = elim (Map.get q.tasks id) [
  | none ↦ (q, err "task %q does not exist")
  | some t ↦
      if not (held_by allocation t)
      then (q, err "allocation %q does not hold task %q")
      else (record q { tasks = Map.put q.tasks id (record t { claim = none }) }, saved)
]

-- The body of the loop of `ReleaseAllocation`.
abbrev pub let_go : String → QueueTask → QueueTask
let_go allocation t = if held_by allocation t then record t { claim = none } else t

-- `changed` is whether the loop met a task of the allocation.
unfoldable pub release_allocation : Queue → Result (Unit {0}) → String → Queue × Result (Unit {0})
unfolding map_values count
release_allocation q saved allocation = (
  record q { tasks = map_values (let_go allocation) q.tasks },
  if eqb (count (held_by allocation) q.tasks) 0 then ok tt else saved,
)

unfoldable pub in_flight : Time → QueueTask → Bool
unfolding available
in_flight now t = not (available now t) && is_some t.claim

-- `Depth`: waiting and in flight.
unfoldable pub depth : Queue → Time → ℕ × ℕ
unfolding waits in_flight count
depth q now = (count (waits q now) q.tasks, count (in_flight now) q.tasks)

unfoldable pub stuck : Queue → Time → QueueTask → Bool
unfolding available attempt_limit
stuck q now t = available now t && leb (attempt_limit q) t.attempts

-- `Stalled`, in the order of delivery; the source sorts the ids.
unfoldable pub stalled : Queue → Time → List String → List String
unfolding stuck
stalled q now [] = []
stalled q now (id ∷ ids) =
    let rest = stalled q now ids in
    elim (Map.get q.tasks id) [ none ↦ rest | some t ↦ if stuck q now t then id ∷ rest else rest ]
