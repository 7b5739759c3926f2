-- ===== src/Examples/Queues.antt =====
-- The theorems on the node's queue, applied.
use a4s.Prelude.{
  some-injective, none-some, subst, ◌==◌, Bool-cases, inl, inr, ℕ, ◌+◌, ◌≤◌, ◌<◌, ◌≡◌, refl, true,
  none, some, [], ◌∷◌, String, arith, Result, ok, err, ◌⊎◌,
}
use a4s.Prelude.Map
use a4s.Prelude.Map.{Map}
use a4s.Node.Queue.{
  Queue, QueueTask, TaskClaim, claim, enqueue, new_queue, taken, depth, load, lines_of, held_by,
}
use a4s.Node.Queue.Consistent.{Consistent, new_queue-Consistent}
use a4s.Node.Queue.Steps.{Operation, perform, Reach, Reach-Consistent}
use a4s.Node.Queue.Drains.{delivers, claim-delivers, claim_each, all_deliver, claim_each-delivers}
use a4s.Node.Queue.Holds.{Others, Others-keeps}
use a4s.Node.Queue.Refusals.{perform-err}
use a4s.Node.Queue.Files.{load-lines, ReadsBack}

abbrev pub nothing : Queue
nothing = new_queue "work" "agents"

nothing-Consistent : Consistent nothing
nothing-Consistent = new_queue-Consistent "work" "agents"

abbrev waiting : String → QueueTask
waiting id = record { id = id; payload = ""; enqueued_at = 10; claim = none; attempts = 0 }

abbrev pub two : Queue
two = record nothing {
  tasks = record { entries = ("t1", waiting "t1") ∷ ("t2", waiting "t2") ∷ [] };
  order = "t1" ∷ "t2" ∷ [];
}

two-Reach : Reach nothing two
unfolding perform Map.get new_queue Map.empty Map.put
two-Reach =
    Reach.later (Operation.enqueues 10 "t2" "") (ok tt)
      (Reach.later (Operation.enqueues 10 "t1" "") (ok tt) Reach.start)

Reach-Consistent_example : Consistent two
Reach-Consistent_example = Reach-Consistent two-Reach nothing-Consistent

pub two-Consistent : Consistent two
two-Consistent = Reach-Consistent two-Reach nothing-Consistent

abbrev pub given : QueueTask
given = taken two 20 "a1" (waiting "t1")

abbrev pub one_taken : Queue
one_taken = record two { tasks = record { entries = ("t1", given) ∷ ("t2", waiting "t2") ∷ [] } }

claim-delivers_example : delivers (claim two 20 (ok tt) "a1").1 ≡ true
unfolding depth new_queue
claim-delivers_example = claim-delivers two 20 "a1" two-Consistent refl

two_deep : (depth two 20).0 ≡ 2
unfolding depth new_queue
two_deep = refl

enough : 2 ≤ (depth two 20).0
enough = ground (arith, two_deep)

claim_each-delivers_example :
    (all_deliver (claim_each two 20 ("a1" ∷ "a2" ∷ [])).1 ≡ true)
    × ((depth (claim_each two 20 ("a1" ∷ "a2" ∷ [])).0 20).0 + 2 ≡ (depth two 20).0)
    × ((depth (claim_each two 20 ("a1" ∷ "a2" ∷ [])).0 20).1 ≡ (depth two 20).1 + 2)
claim_each-delivers_example =
    claim_each-delivers ("a1" ∷ "a2" ∷ []) two 20 two-Consistent refl enough

abbrev lapses : ℕ
lapses = 20 + 900000000000

soon : 30 < lapses
soon = ground arith

after : Others "a1" lapses one_taken (claim one_taken 30 (ok tt) "a2").0
after = Others.claims 30 (ok tt) "a2" Others.start soon

given-claim : given.claim ≡ some (record { allocation = "a1"; expires_at = lapses })
unfolding a4s.Node.Queue.lease_time new_queue
given-claim = refl

Others-keeps_example : Map.get (claim one_taken 30 (ok tt) "a2").0.tasks "t1" ≡ some given
unfolding Map.get
Others-keeps_example = Others-keeps "t1" given after given-claim refl

refused :
    perform (Operation.acks "a2" "t1") one_taken (ok tt)
    ≡ (one_taken, err "allocation %q does not hold task %q")
unfolding perform Map.get
refused = refl

perform-err_example :
    (one_taken ≡ one_taken)
    ⊎ (◌≡◌ {A = Result (Unit {0})} (ok tt) (err "allocation %q does not hold task %q"))
perform-err_example =
    perform-err (Operation.acks "a2" "t1") one_taken one_taken (ok tt)
      "allocation %q does not hold task %q" refused

-- A text form of tasks that wait: their ids.
abbrev id_line : QueueTask → String
id_line t = t.id

abbrev waiting_line : String → Result QueueTask
waiting_line line = ok (waiting line)

waiting-back :
    (id : String) (t : QueueTask) → some (waiting id) ≡ some t → waiting_line (id_line t) ≡ ok t
waiting-back id t h =
    let same = some-injective h in subst (λ u. waiting_line (id_line u) ≡ ok u) same refl

two-ReadsBack : ReadsBack id_line waiting_line two.tasks
unfolding Map.get
two-ReadsBack k t h = elim (Bool-cases ("t1" == k)) [
  | inl e ↦ waiting-back "t1" t (rw e at h)
  | inr e ↦ elim (Bool-cases ("t2" == k)) [
    | inl f ↦ waiting-back "t2" t (rw (e, f) at h)
    | inr f ↦ absurd (none-some (rw (e, f) at h))
  ]
]

load-lines_example :
    (r : Queue) × (load waiting_line
        (new_queue "work" "agents")
        (lines_of id_line two.tasks two.order)
      ≡ ok r)
    × (r.order ≡ two.order)
    × (Map.get r.tasks "t2" ≡ Map.get two.tasks "t2")
unfolding new_queue
load-lines_example = load-lines id_line waiting_line two "t2" two-ReadsBack two-Consistent
