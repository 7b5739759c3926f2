-- ===== src/Node/Queue/Drains.antt =====
-- node/queue.go: what `Depth` counts against what `Claim` hands out.
use a4s.Prelude.{
  ℕ, suc, ◌+◌, ◌≤◌, ◌≡◌, ◌≢◌, refl, sym, ◌∙◌, Bool, true, false, ◌&&◌, not, Option, none, some,
  List, [], ◌∷◌, String, ◌==◌, arith, Result, ok, ◌>>=◌, is_some, if◌then◌else◌, inl, inr,
  Bool-cases, Option-cases, eqb,
}
use a4s.Prelude.Map
use a4s.Prelude.Map.{Map, one_if, count, count-put, count-ext}
use a4s.Prelude.Map.Keys.{count-zero, count-none}
use a4s.Types.World.{Time}
use a4s.Kernel.Rules.{mem}
use a4s.Node.Queue.{
  Queue, QueueTask, claim, first_waiting, waits, available, in_flight, taken, depth, lease_time,
}
use a4s.Node.Queue.Consistent.{Consistent}
use a4s.Node.Queue.Steps.{claim-Consistent}
use a4s.Node.Queue.Claims.{
  Answers, StopsAt, waits_at, none_waits, none_waits-mem, first_waiting-Answers,
}

one_if-waits_at :
    (q : Queue) (now : Time) (id : String)
    → one_if (waits q now) (Map.get q.tasks id) ≡ (if waits_at q now id then 1 else 0)
one_if-waits_at q now id = elim (Option-cases (Map.get q.tasks id)) [
  | inl e ↦ rw (e, waits_at) refl
  | inr (t, e) ↦ rw (e, waits_at) refl
]

-- With no waiting task in the order there is none at all.
none_waits-depth :
    (q : Queue) (now : Time) → Consistent q → none_waits q now q.order ≡ true → (depth q now).0 ≡ 0
unfolding depth
none_waits-depth q now c h = count-none (waits q now) q.tasks c.distinct (λ k.
    elim (Bool-cases (mem k q.order)) [
      | inl m ↦ one_if-waits_at q now k ∙ rw (none_waits-mem q.order q now k h m) refl
      | inr m ↦ absent q now k (sym (c.keys k) ∙ m)
    ])
  where
    absent :
        (q : Queue) (now : Time) (k : String)
        → is_some (Map.get q.tasks k) ≡ false
        → one_if (waits q now) (Map.get q.tasks k) ≡ 0
    absent q now k e = ground arith

StopsAt-depth :
    (q : Queue) (now : Time) (ids : List String) (id : String) (t : QueueTask)
    → Consistent q
    → StopsAt q now ids id t
    → (depth q now).0 ≢ 0
unfolding depth
StopsAt-depth q now ids id t c s e =
    absurd
      (omega (arith, rw (s.found, s.ready) at (count-zero (waits q now) q.tasks id c.distinct e)))

-- Whether a claim hands out a task.
abbrev pub delivers : Result (Option QueueTask) → Bool
delivers (ok (some t)) = true
delivers _ = false

-- An instance that asks is given a task exactly if the depth that scaling decisions follow is not
-- zero, when what it takes can be written.
pub claim-delivers :
    (q : Queue) (now : Time) (allocation : String)
    → Consistent q
    → (allocation == "") ≡ false
    → delivers (claim q now (ok tt) allocation).1 ≡ not (eqb (depth q now).0 0)
unfolding claim ◌>>=◌
claim-delivers q now allocation c named =
    go (first_waiting q now q.order) refl (first_waiting-Answers q.order q now)
  where
    go :
        (answer : Option (String × QueueTask))
        → first_waiting q now q.order ≡ answer
        → Answers q now q.order answer
        → delivers (claim q now (ok tt) allocation).1 ≡ not (eqb (depth q now).0 0)
    go none e a = rw (claim, named, e, none_waits-depth q now c a) refl
    go (some (id, t)) e s =
        rw (claim, named, e) (positive (depth q now).0 (StopsAt-depth q now q.order id t c s))
      where
        positive : (n : ℕ) → n ≢ 0 → true ≡ not (eqb n 0)
        positive n h = ground arith

module _ (q : Queue) (now : Time) (allocation : String) where
  -- A task that was just handed out does not wait, and is in flight.
  taken-busy :
      (t : QueueTask)
      → (waits q now (taken q now allocation t) ≡ false)
        × (in_flight now (taken q now allocation t) ≡ true)
  unfolding waits in_flight available lease_time
  taken-busy t = (ground arith, ground arith)

  waits-idle : (t : QueueTask) → waits q now t ≡ true → in_flight now t ≡ false
  unfolding waits in_flight
  waits-idle t h = ground arith

  taken-depth :
      (id : String) (t : QueueTask)
      → Map.get q.tasks id ≡ some t
      → waits q now t ≡ true
      → (suc (depth (record q { tasks = Map.put q.tasks id (taken q now allocation t) }) now).0
          ≡ (depth q now).0)
        × ((depth (record q { tasks = Map.put q.tasks id (taken q now allocation t) }) now).1
            ≡ suc (depth q now).1)
  unfolding depth
  taken-depth id t found ready =
      let (idle, busy) = taken-busy t in
      let waiting = count-put (waits q now) q.tasks id (taken q now allocation t) in
      let flying = count-put (in_flight now) q.tasks id (taken q now allocation t) in
      (
        omega (arith, rw (found, ready, idle) at waiting),
        omega (arith, rw (found, waits-idle t ready, busy) at flying),
      )

-- Instances that ask one after another, at one time.
unfoldable pub claim_each : Queue → Time → List String → Queue × List (Result (Option QueueTask))
unfolding claim
claim_each q now [] = (q, [])
claim_each q now (a ∷ as') =
    let (r, answer) = claim q now (ok tt) a in
    let (s, answers) = claim_each r now as' in (s, answer ∷ answers)

abbrev pub all_deliver : List (Result (Option QueueTask)) → Bool
all_deliver [] = true
all_deliver (r ∷ rs) = delivers r && all_deliver rs

abbrev pub count_names : List String → ℕ
count_names [] = 0
count_names (_ ∷ as') = suc (count_names as')

abbrev pub all_named : List String → Bool
all_named [] = true
all_named (a ∷ as') = not (a == "") && all_named as'

claim-depth :
    (q : Queue) (now : Time) (allocation : String)
    → Consistent q
    → (allocation == "") ≡ false
    → 1 ≤ (depth q now).0
    → (suc (depth (claim q now (ok tt) allocation).0 now).0 ≡ (depth q now).0)
      × ((depth (claim q now (ok tt) allocation).0 now).1 ≡ suc (depth q now).1)
unfolding claim ◌>>=◌
claim-depth q now allocation c named some_wait =
    go (first_waiting q now q.order) refl (first_waiting-Answers q.order q now)
  where
    go :
        (answer : Option (String × QueueTask))
        → first_waiting q now q.order ≡ answer
        → Answers q now q.order answer
        → (suc (depth (claim q now (ok tt) allocation).0 now).0 ≡ (depth q now).0)
          × ((depth (claim q now (ok tt) allocation).0 now).1 ≡ suc (depth q now).1)
    go none e a = absurd (omega (arith, none_waits-depth q now c a))
    go (some (id, t)) e s = rw (claim, named, e) (taken-depth q now allocation id t s.found s.ready)

-- No instance waits while there is work: as many instances as tasks wait are each handed a task,
-- and what was counted as waiting is then counted as in flight.
pub claim_each-delivers :
    (names : List String) (q : Queue) (now : Time)
    → Consistent q
    → all_named names ≡ true
    → count_names names ≤ (depth q now).0
    → (all_deliver (claim_each q now names).1 ≡ true)
      × ((depth (claim_each q now names).0 now).0 + count_names names ≡ (depth q now).0)
      × ((depth (claim_each q now names).0 now).1 ≡ (depth q now).1 + count_names names)
unfolding claim_each
claim_each-delivers [] q now c named enough = (refl, omega arith, omega arith)
claim_each-delivers (a ∷ as') q now c named enough =
    let this : (a == "") ≡ false = ground arith in
    let (less, more) = claim-depth q now a c this (omega arith) in
    let given = claim-delivers q now a c this in
    let (each, waiting, flying) =
      claim_each-delivers as' (claim q now (ok tt) a).0 now (claim-Consistent q now (ok tt) a c)
        (ground arith) (omega (arith, less)) in
    (rw (each, given) (ground arith), omega (arith, waiting, less), omega (arith, flying, more))
