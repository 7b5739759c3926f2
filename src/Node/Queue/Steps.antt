-- ===== src/Node/Queue/Steps.antt =====
-- node/queue.go: sequences of operations on a queue, and what holds along all of them.
use a4s.Prelude.{
  ◌≡◌, refl, subst, true, Option, some, List, [], ◌∷◌, String, ◌==◌, arith, Result, ok, err,
  is_some, inl, inr, Bool-cases, Option-cases, some-injective,
}
use a4s.Prelude.Map
use a4s.Prelude.Map.{Map}
use a4s.Types.World.{Time}
use a4s.Node.Queue.{
  Queue, QueueTask, enqueue, claim, ack, requeue, release_allocation, first_waiting, waits, taken,
  held_by,
}
use a4s.Node.Queue.Consistent.{
  Consistent, rewrite-Consistent, let_go-Consistent, ack-Consistent, enqueue-Consistent,
}

pub data Operation : Type 0 where
  enqueues : Time → (id payload : String) → Operation
  claims : Time → (allocation : String) → Operation
  acks requeues : (allocation id : String) → Operation
  releases : (allocation : String) → Operation

abbrev pub forget : Result (Option QueueTask) → Result (Unit {0})
forget (ok t) = ok tt
forget (err e) = err e

-- An operation, and its error.
unfoldable pub perform : Operation → Queue → Result (Unit {0}) → Queue × Result (Unit {0})
unfolding enqueue claim ack requeue release_allocation
perform (enqueues now id payload) q saved = enqueue q now saved id payload
perform (claims now allocation) q saved =
    let (r, answer) = claim q now saved allocation in (r, forget answer)
perform (acks allocation id) q saved = ack q saved allocation id
perform (requeues allocation id) q saved = requeue q saved allocation id
perform (releases allocation) q saved = release_allocation q saved allocation

pub data Reach (q : Queue) : Queue → Type 0 where
  start : Reach q q
  later :
      {r : Queue} (o : Operation) (saved : Result (Unit {0}))
      → Reach q r
      → Reach q (perform o r saved).0

-- What the loop of `Claim` stops at.
pub first_waiting-found :
    (ids : List String) (q : Queue) (now : Time) (id : String) (t : QueueTask)
    → first_waiting q now ids ≡ some (id, t)
    → (Map.get q.tasks id ≡ some t) × (waits q now t ≡ true)
unfolding first_waiting
first_waiting-found [] q now id t h = cc
first_waiting-found (x ∷ xs) q now id t h = elim (Option-cases (Map.get q.tasks x)) [
  | inl e ↦ first_waiting-found xs q now id t (rw (e, first_waiting) at h)
  | inr (u, e) ↦ elim (Bool-cases (waits q now u)) [
    | inl w ↦
        let same = some-injective (rw (e, first_waiting, w) at h) in
        subst (λ p. (Map.get q.tasks p.0 ≡ some p.1) × (waits q now p.1 ≡ true)) same (e, w)
    | inr w ↦ first_waiting-found xs q now id t (rw (e, first_waiting, w) at h)
  ]
]

claimed :
    (q : Queue) (now : Time) (allocation id : String) (t : QueueTask)
    → Consistent q
    → (Map.get q.tasks id ≡ some t) × (waits q now t ≡ true)
    → Consistent (record q { tasks = Map.put q.tasks id (taken q now allocation t) })
unfolding waits
claimed q now allocation id t c (found, ready) =
    rewrite-Consistent q c id (taken q now allocation t) (rw found refl)
      (c.named id t found, ground arith)

pub claim-Consistent :
    (q : Queue) (now : Time) (saved : Result (Unit {0})) (allocation : String)
    → Consistent q
    → Consistent (claim q now saved allocation).0
unfolding claim
claim-Consistent q now saved allocation c = elim (Bool-cases (allocation == "")) [
  | inl e ↦ rw e c
  | inr e ↦ elim (Option-cases (first_waiting q now q.order)) [
    | inl n ↦ rw (e, n) c
    | inr ((id, t), f) ↦
        rw (e, f) (claimed q now allocation id t c (first_waiting-found q.order q now id t f))
  ]
]

pub enqueue_step-Consistent :
    (q : Queue) (now : Time) (saved : Result (Unit {0})) (id payload : String)
    → Consistent q
    → Consistent (enqueue q now saved id payload).0
unfolding enqueue
enqueue_step-Consistent q now saved id payload c = elim (Bool-cases (id == "")) [
  | inl e ↦ rw e c
  | inr e ↦ elim (Bool-cases (is_some (Map.get q.tasks id))) [
    | inl there ↦ rw (e, there) c
    | inr new ↦ rw (e, new) (enqueue-Consistent q c id _ new e (refl, omega arith))
  ]
]

pub ack_step-Consistent :
    (q : Queue) (saved : Result (Unit {0})) (allocation id : String)
    → Consistent q
    → Consistent (ack q saved allocation id).0
unfolding ack
ack_step-Consistent q saved allocation id c = elim (Option-cases (Map.get q.tasks id)) [
  | inl n ↦ rw (n, ack) c
  | inr (t, f) ↦ elim (Bool-cases (held_by allocation t)) [
    | inl e ↦ rw (f, ack, e) (ack-Consistent q c id)
    | inr e ↦ rw (f, ack, e) c
  ]
]

pub requeue_step-Consistent :
    (q : Queue) (saved : Result (Unit {0})) (allocation id : String)
    → Consistent q
    → Consistent (requeue q saved allocation id).0
unfolding requeue
requeue_step-Consistent q saved allocation id c = elim (Option-cases (Map.get q.tasks id)) [
  | inl n ↦ rw (n, requeue) c
  | inr (t, f) ↦ elim (Bool-cases (held_by allocation t)) [
    | inl e ↦
        rw (f, requeue, e)
          (rewrite-Consistent q c id _ (rw f refl) (c.named id t f, c.bounded id t f))
    | inr e ↦ rw (f, requeue, e) c
  ]
]

perform-Consistent :
    (o : Operation) (q : Queue) (saved : Result (Unit {0}))
    → Consistent q
    → Consistent (perform o q saved).0
unfolding perform
perform-Consistent (enqueues now id payload) q saved c =
    enqueue_step-Consistent q now saved id payload c
perform-Consistent (claims now allocation) q saved c = claim-Consistent q now saved allocation c
perform-Consistent (acks allocation id) q saved c = ack_step-Consistent q saved allocation id c
perform-Consistent (requeues allocation id) q saved c =
    requeue_step-Consistent q saved allocation id c
perform-Consistent (releases allocation) q saved c = let_go-Consistent q c allocation

-- Whatever the operations and whatever `persist` answers, the order of delivery lists exactly the
-- tasks, each once and under its id, and no task is handed out more often than the limit allows.
pub Reach-Consistent : {q r : Queue} → Reach q r → Consistent q → Consistent r
Reach-Consistent start c = c
Reach-Consistent (later o saved r) c = perform-Consistent o _ saved (Reach-Consistent r c)
