-- ===== src/Node/Queue/Claims.antt =====
-- node/queue.go: which task `Claim` hands out, and what that does to `Depth`.
use a4s.Prelude.{
  ◌≡◌, refl, ◌∙◌, ap, Bool, true, false, ◌&&◌, not, Option, none, some, List, [], ◌∷◌, ◌++◌, String,
  eq_iff, arith, inl, inr, Bool-cases, Option-cases,
}
use a4s.Prelude.Map
use a4s.Prelude.Map.{Map, one_if, count, count-put}
use a4s.Types.World.{Time}
use a4s.Kernel.Rules.{mem}
use a4s.Node.Queue.{Queue, QueueTask, first_waiting, waits}

abbrev pub waits_at : Queue → Time → String → Bool
waits_at q now id = elim (Map.get q.tasks id) [ none ↦ false | some t ↦ waits q now t ]

pub waits_at-some :
    (q : Queue) (now : Time) (id : String) (t : QueueTask)
    → Map.get q.tasks id ≡ some t
    → waits_at q now id ≡ waits q now t
waits_at-some q now id t h = rw (h, waits_at) refl

abbrev pub none_waits : Queue → Time → List String → Bool
none_waits q now [] = true
none_waits q now (id ∷ ids) = not (waits_at q now id) && none_waits q now ids

pub none_waits-mem :
    (ids : List String) (q : Queue) (now : Time) (k : String)
    → none_waits q now ids ≡ true
    → mem k ids ≡ true
    → waits_at q now k ≡ false
none_waits-mem [] q now k h m = cc
none_waits-mem (x ∷ xs) q now k h m = ground (arith, eq_iff x k, none_waits-mem xs q now k)

-- Where the loop stops: a waiting task, with none before it.
pub record StopsAt (q : Queue) (now : Time) (ids : List String) (id : String) (t : QueueTask)
    : Type 0 where
  pub passed : List String
  pub left : List String
  pub split : ids ≡ passed ++ id ∷ left
  pub oldest : none_waits q now passed ≡ true
  pub found : Map.get q.tasks id ≡ some t
  pub ready : waits q now t ≡ true

pass :
    (q : Queue) (now : Time) (x : String) (xs : List String) (id : String) (t : QueueTask)
    → waits_at q now x ≡ false
    → StopsAt q now xs id t
    → StopsAt q now (x ∷ xs) id t
pass q now x xs id t p s = record {
  passed = x ∷ s.passed;
  left = s.left;
  split = ap (λ l. x ∷ l) s.split;
  oldest = rw (p, s.oldest) refl;
  found = s.found;
  ready = s.ready;
}

-- What the loop answers.
abbrev pub Answers : Queue → Time → List String → Option (String × QueueTask) → Type 0
Answers q now ids none = none_waits q now ids ≡ true
Answers q now ids (some (id, t)) = StopsAt q now ids id t

pass-Answers :
    (q : Queue) (now : Time) (x : String) (xs : List String) (answer : Option (String × QueueTask))
    → waits_at q now x ≡ false
    → Answers q now xs answer
    → Answers q now (x ∷ xs) answer
pass-Answers q now x xs none p a = rw (p, a) refl
pass-Answers q now x xs (some (id, t)) p s = pass q now x xs id t p s

pub first_waiting-Answers :
    (ids : List String) (q : Queue) (now : Time) → Answers q now ids (first_waiting q now ids)
unfolding first_waiting
first_waiting-Answers [] q now = refl
first_waiting-Answers (x ∷ xs) q now = elim (Option-cases (Map.get q.tasks x)) [
  | inl e ↦
      rw (e, first_waiting)
        (pass-Answers q now x xs (first_waiting q now xs) (rw (e, waits_at) refl)
          (first_waiting-Answers xs q now))
  | inr (u, e) ↦ elim (Bool-cases (waits q now u)) [
    | inl w ↦
        rw (e, first_waiting, w)
          (record { passed = []; left = xs; split = refl; oldest = refl; found = e; ready = w })
    | inr w ↦
        rw (e, first_waiting, w)
          (pass-Answers q now x xs (first_waiting q now xs) (waits_at-some q now x u e ∙ w)
            (first_waiting-Answers xs q now))
  ]
]
