-- ===== src/Node/Queue/Refusals.antt =====
-- node/queue.go: the errors of the queue's operations.
use a4s.Prelude.{
  ◌≡◌, refl, subst, some, String, ◌==◌, Result, ok, err, ◌>>=◌, is_some, ◌⊎◌, inl, inr, Bool-cases,
  Option-cases, eqb,
}
use a4s.Prelude.Map
use a4s.Prelude.Map.{count}
use a4s.Node.Queue.{Queue, enqueue, claim, ack, requeue, release_allocation, first_waiting, held_by}
use a4s.Node.Queue.Steps.{Operation, perform, forget}

-- An answer that is an error only where nothing changed, or where `persist` failed.
abbrev Clean : Queue → Result (Unit {0}) → Queue × Result (Unit {0}) → Type 0
Clean q saved (r, ok _) = Unit {0}
Clean q saved (r, err e) = (r ≡ q) ⊎ (saved ≡ err e)

kept : (q r : Queue) (saved answer : Result (Unit {0})) → r ≡ q → Clean q saved (r, answer)
kept q r saved (ok u) h = tt
kept q r saved (err e) h = inl h

written : (q r : Queue) (saved : Result (Unit {0})) → Clean q saved (r, saved)
written q r (ok u) = tt
written q r (err e) = inr refl

perform-Clean :
    (o : Operation) (q : Queue) (saved : Result (Unit {0})) → Clean q saved (perform o q saved)
unfolding perform enqueue claim ack requeue release_allocation ◌>>=◌
perform-Clean (Operation.enqueues now id payload) q saved = elim (Bool-cases (id == "")) [
  | inl e ↦ rw e (inl refl)
  | inr e ↦ elim (Bool-cases (is_some (Map.get q.tasks id))) [
    | inl there ↦ rw (e, there) tt
    | inr new ↦ rw (e, new) (written q _ saved)
  ]
]
perform-Clean (Operation.claims now a) q saved = elim (Bool-cases (a == "")) [
  | inl e ↦ rw e (inl refl)
  | inr e ↦ elim (Option-cases (first_waiting q now q.order)) [
    | inl n ↦ rw (e, n) tt
    | inr ((id, t), f) ↦
        rw (e, f)
          (elim saved as (λ s. Clean q s (_, forget (s >>= λ _. ok (some _)))) [
            | ok u ↦ tt
            | err m ↦ inr refl
          ])
  ]
]
perform-Clean (Operation.acks a id) q saved = elim (Option-cases (Map.get q.tasks id)) [
  | inl n ↦ rw (n, ack) tt
  | inr (t, f) ↦ elim (Bool-cases (held_by a t)) [
    | inl e ↦ rw (f, ack, e) (written q _ saved)
    | inr e ↦ rw (f, ack, e) (inl refl)
  ]
]
perform-Clean (Operation.requeues a id) q saved = elim (Option-cases (Map.get q.tasks id)) [
  | inl n ↦ rw (n, requeue) (inl refl)
  | inr (t, f) ↦ elim (Bool-cases (held_by a t)) [
    | inl e ↦ rw (f, requeue, e) (written q _ saved)
    | inr e ↦ rw (f, requeue, e) (inl refl)
  ]
]
perform-Clean (Operation.releases a) q saved =
    elim (Bool-cases (eqb (count (held_by a) q.tasks) 0)) [
      | inl e ↦ rw e tt
      | inr e ↦ rw e (written q _ saved)
    ]

-- An operation that answers with an error leaves the queue as it was, unless the error is that of
-- writing the file: a refusal burns no attempt and loses no task.
pub perform-err :
    (o : Operation) (q r : Queue) (saved : Result (Unit {0})) (e : String)
    → perform o q saved ≡ (r, err e)
    → (r ≡ q) ⊎ (saved ≡ err e)
perform-err o q r saved e h = subst (Clean q saved) h (perform-Clean o q saved)
