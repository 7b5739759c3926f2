-- ===== src/Node/Broker/Moves.antt =====
-- node/queue.go and node/agent.go: what each operation of the broker does to the claims and the slots.
use a4s.Prelude.{
  true-false, ◌≡◌, refl, sym, ◌∙◌, ap, subst, true, false, none, some, String, ◌==◌, eq_iff, Result,
  ok, err, ◌>>=◌, Ensures-ok, is_some, Bool-cases, Option-cases, inl, inr, some-injective,
  none-some,
}
use a4s.Prelude.Map
use a4s.Prelude.Map.{Map, get-put, get-delete}
use a4s.Prelude.Map.Keys.{get-put-some, get-delete-some, get-map_values-some}
use a4s.Types.World.{Time}
use a4s.Kernel.Rules.{mem}
use a4s.Node.Queue
use a4s.Node.Queue.{Queue, QueueTask, TaskClaim, first_waiting, taken, held_by, let_go}
use a4s.Node.Queue.Consistent.{Consistent}
use a4s.Node.Queue.Steps.{first_waiting-found}
use a4s.Node.Agents.{Agents, may_claim}
use a4s.Node.Agents.Tokens.{hold_task, release_task}
use a4s.Node.Broker.{hold_answer, free_slot}
use a4s.Node.Broker.Links.{Linked, may_claim-Ensures, taken-Linked, freed-Linked}

not_blank :
    (q : Queue) (id : String) (t : QueueTask)
    → Consistent q
    → Map.get q.tasks id ≡ some t
    → (id == "") ≡ false
not_blank q id t c h = elim (Bool-cases (id == "")) [
  | inl e ↦
      let listed = c.keys id ∙ rw h refl in
      absurd (true-false (sym listed ∙ ap (λ x. mem x q.order) ((eq_iff id "").0 e) ∙ c.no_blank))
  | inr e ↦ e
]

-- While what the queue takes can be written, a claim keeps the slots and the queue in step.
pub queue_claim-Linked :
    (q : Queue) (a : Agents) (now : Time) (allocation : String)
    → Consistent q
    → Linked q.tasks a.tasks
    → may_claim a allocation ≡ ok tt
    → Linked
        (Queue.claim q now (ok tt) allocation).0.tasks
        (hold_answer a allocation (Queue.claim q now (ok tt) allocation).1).tasks
unfolding Queue.claim hold_task ◌>>=◌
queue_claim-Linked q a now allocation c l free = elim (Bool-cases (allocation == "")) [
  | inl e ↦ rw (Queue.claim, e) l
  | inr e ↦ elim (Option-cases (first_waiting q now q.order)) [
    | inl n ↦ rw (Queue.claim, e, n) l
    | inr ((id, t), f) ↦
        let (found, ready) = first_waiting-found q.order q now id t f in
        let idle = (Ensures-ok (may_claim-Ensures a allocation) free).idle in
        rw (Queue.claim, e, f)
          (subst
            (λ x.
              Linked (Map.put q.tasks id (taken q now allocation t)) (Map.put a.tasks allocation x))
            (sym (c.named id t found))
            (taken-Linked q.tasks a allocation id (taken q now allocation t) _ l
              (not_blank q id t c found) refl refl idle))
  ]
]

-- What an operation that frees a slot may leave claimed.
abbrev Leaves : (tasks tasks' : Map QueueTask) → String → Type 0
Leaves tasks tasks' allocation =
    (k : String) (t : QueueTask) (d : TaskClaim)
    → Map.get tasks' k ≡ some t
    → t.claim ≡ some d
    → (Map.get tasks k ≡ some t) × ((d.allocation == allocation) ≡ false)

free_slot-Linked :
    (tasks tasks' : Map QueueTask) (a : Agents) (allocation : String) (answer : Result (Unit {0}))
    → Linked tasks a.tasks
    → Leaves tasks tasks' allocation
    → Linked tasks' (free_slot a allocation answer).tasks
unfolding release_task
free_slot-Linked tasks tasks' a allocation (ok u) l left =
    freed-Linked tasks tasks' a.tasks allocation l left
free_slot-Linked tasks tasks' a allocation (err e) l left =
    λ k t d h is. l k t d (left k t d h is).0 is

pub held_claim :
    (t : QueueTask) (allocation : String)
    → held_by allocation t ≡ true
    → (d : TaskClaim) × (t.claim ≡ some d) × (d.allocation ≡ allocation)
held_claim t allocation h = elim (Option-cases t.claim) [
  | inl n ↦ absurd (true-false (sym (rw n at h)))
  | inr (d, is) ↦ (d, is, (eq_iff d.allocation allocation).0 (rw is at h))
]

unheld :
    (t : QueueTask) (allocation : String) (d : TaskClaim)
    → held_by allocation t ≡ false
    → t.claim ≡ some d
    → (d.allocation == allocation) ≡ false
unheld t allocation d h is = rw is at h

-- An instance has one slot, so it holds no second task.
only_one :
    (tasks : Map QueueTask) (slots : Map String) (allocation id k : String) (t u : QueueTask)
    (d : TaskClaim)
    → Linked tasks slots
    → Map.get tasks id ≡ some t
    → held_by allocation t ≡ true
    → Map.get tasks k ≡ some u
    → u.claim ≡ some d
    → (id == k) ≡ false
    → (d.allocation == allocation) ≡ false
only_one tasks slots allocation id k t u d l h mine g is other =
    elim (Bool-cases (d.allocation == allocation)) [
      | inl e ↦
          let (c, claims, by) = held_claim t allocation mine in
          let one = (l id t c h claims).0 in
          let two = (l k u d g is).0 in
          let same = some-injective (
            sym one ∙ ap (Map.get slots) (by ∙ sym ((eq_iff d.allocation allocation).0 e)) ∙ two) in
          absurd (true-false (sym ((eq_iff id k).1 same) ∙ other))
      | inr e ↦ e
    ]

pub ack-Linked :
    (q : Queue) (a : Agents) (saved : Result (Unit {0})) (allocation id : String)
    → Linked q.tasks a.tasks
    → is_some (Map.get q.tasks id) ≡ true
    → Linked
        (Queue.ack q saved allocation id).0.tasks
        (free_slot a allocation (Queue.ack q saved allocation id).1).tasks
unfolding Queue.ack
ack-Linked q a saved allocation id l there = elim (Option-cases (Map.get q.tasks id)) [
  | inl n ↦ absurd (true-false (sym (rw n at there)))
  | inr (t, f) ↦ elim (Bool-cases (held_by allocation t)) [
    | inl e ↦
        rw (f, Queue.ack, e)
          (free_slot-Linked q.tasks (Map.delete q.tasks id) a allocation saved l (λ k u d h is.
            let (old, other) = get-delete-some q.tasks id k u h in
            (old, only_one q.tasks a.tasks allocation id k t u d l f e old is other)))
    | inr e ↦ rw (f, Queue.ack, e) l
  ]
]

pub requeue-Linked :
    (q : Queue) (a : Agents) (saved : Result (Unit {0})) (allocation id : String)
    → Linked q.tasks a.tasks
    → Linked
        (Queue.requeue q saved allocation id).0.tasks
        (free_slot a allocation (Queue.requeue q saved allocation id).1).tasks
unfolding Queue.requeue
requeue-Linked q a saved allocation id l = elim (Option-cases (Map.get q.tasks id)) [
  | inl n ↦ rw (n, Queue.requeue) l
  | inr (t, f) ↦ elim (Bool-cases (held_by allocation t)) [
    | inl e ↦
        rw (f, Queue.requeue, e)
          (free_slot-Linked q.tasks (Map.put q.tasks id (record t { claim = none })) a allocation
            saved l
            (λ k u d h is. elim (get-put-some q.tasks id k (record t { claim = none }) u h) [
              | inl (_, kept) ↦ absurd (none-some (ap (λ x. x.claim) kept ∙ is))
              | inr (old, other) ↦
                  (old, only_one q.tasks a.tasks allocation id k t u d l f e old is other)
            ]))
    | inr e ↦ rw (f, Queue.requeue, e) l
  ]
]

pub release-Linked :
    (q : Queue) (a : Agents) (saved : Result (Unit {0})) (allocation : String)
    → Linked q.tasks a.tasks
    → Linked
        (Queue.release_allocation q saved allocation).0.tasks
        (free_slot a allocation (Queue.release_allocation q saved allocation).1).tasks
unfolding Queue.release_allocation
release-Linked q a saved allocation l = free_slot-Linked q.tasks _ a allocation _ l (λ k u d h is.
    let (t, old, kept) = get-map_values-some (let_go allocation) q.tasks k u h in
    elim (Bool-cases (held_by allocation t)) [
      | inl e ↦ absurd (none-some (ap (λ x. x.claim) (rw e at kept) ∙ is))
      | inr e ↦
          let same = rw e at kept in
          (old ∙ ap some same, unheld t allocation d e (ap (λ x. x.claim) same ∙ is))
    ])
