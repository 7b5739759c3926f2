-- ===== src/Node/Broker/Links.antt =====
-- node/queue.go and node/agent.go: the tasks that the queue says are claimed against the slots that
-- the agents record.
use a4s.Prelude.{
  true-false, ◌≡◌, refl, sym, ◌∙◌, ap, subst, true, false, some, String, ◌==◌, eq_iff, eq_refl,
  arith, Ensures, or_fail-Ensures, refuse-Ensures, result-Ensures, Bool-cases, inl, inr,
  some-injective, require-eq-ok,
}
use a4s.Prelude.Map
use a4s.Prelude.Map.{Map, get-put, get-delete}
use a4s.Prelude.Map.Keys.{get-put-some}
use a4s.Node.Queue.{QueueTask, TaskClaim}
use a4s.Node.Queue.Consistent.{Consistent}
use a4s.Types.Budget
use a4s.Node.Agents.{Agents, Meter, is_draining, task_of, may_claim}
use a4s.Node.Broker.{QueueBroker}

-- Every claim in the queue is in the slot of the instance that made it.
abbrev pub Linked : Map QueueTask → Map String → Type 0
Linked tasks slots =
    (id : String) (t : QueueTask) (c : TaskClaim)
    → Map.get tasks id ≡ some t
    → t.claim ≡ some c
    → (Map.get slots c.allocation ≡ some id) × ((id == "") ≡ false)

-- An instance that may take work: it is metered, within its budget, not draining, and idle.
pub record MayClaim (a : Agents) (allocation : String) : Type 0 where
  pub meter : Meter
  pub metered : Map.get a.meters allocation ≡ some meter
  pub funded : Budget.exhausts meter.spent meter.budget ≡ false
  pub active : is_draining a allocation ≡ false
  pub idle : (task_of a allocation == "") ≡ true

pub may_claim-Ensures :
    (a : Agents) (allocation : String)
    → Ensures (λ _. MayClaim a allocation) (may_claim a allocation)
unfolding may_claim
may_claim-Ensures a allocation = or_fail-Ensures _ _ _ (λ m found. refuse-Ensures _ _ _ (λ funded.
    refuse-Ensures _ _ _ (λ active. result-Ensures _ (λ u h. record {
      meter = m;
      metered = found;
      funded = funded;
      active = active;
      idle = require-eq-ok _ _ h;
    }))))

blank_slot :
    (a : Agents) (allocation k : String)
    → (task_of a allocation == "") ≡ true
    → Map.get a.tasks allocation ≡ some k
    → (k == "") ≡ true
unfolding task_of
blank_slot a allocation k free h = rw (h, task_of) at free

-- A task that is handed out goes into a slot that was free.
pub taken-Linked :
    (tasks : Map QueueTask) (a : Agents) (allocation id : String) (u : QueueTask) (c : TaskClaim)
    → Linked tasks a.tasks
    → (id == "") ≡ false
    → u.claim ≡ some c
    → c.allocation ≡ allocation
    → (task_of a allocation == "") ≡ true
    → Linked (Map.put tasks id u) (Map.put a.tasks allocation id)
taken-Linked tasks a allocation id u c l named claims mine free k t d h is =
    elim (get-put-some tasks id k u t h) [
      | inl (same, kept) ↦
          let claimer =
            sym mine
            ∙ ap (λ x. x.allocation) (some-injective (sym claims ∙ ap (λ x. x.claim) kept ∙ is)) in
          let here = get-put a.tasks allocation allocation id ∙ rw (eq_refl allocation) refl in
          (
            subst (λ x. Map.get (Map.put a.tasks allocation id) x ≡ some id) claimer here
                ∙ ap some same,
            subst (λ x. (x == "") ≡ false) same named,
          )
      | inr (old, _) ↦ elim (Bool-cases (allocation == d.allocation)) [
        | inl e ↦
            let (slot, filled) = l k t d old is in
            let blank =
              blank_slot a allocation k free
                (ap (Map.get a.tasks) ((eq_iff allocation d.allocation).0 e) ∙ slot) in
            absurd (true-false (sym blank ∙ filled))
        | inr e ↦
            let (slot, filled) = l k t d old is in
            (get-put a.tasks allocation d.allocation id ∙ rw e slot, filled)
      ]
    ]

-- A slot that is freed with the claims of its instance.
pub freed-Linked :
    (tasks tasks' : Map QueueTask) (slots : Map String) (allocation : String)
    → Linked tasks slots
    → ((k : String) (t : QueueTask) (d : TaskClaim)
        → Map.get tasks' k ≡ some t
        → t.claim ≡ some d
        → (Map.get tasks k ≡ some t) × ((d.allocation == allocation) ≡ false))
    → Linked tasks' (Map.delete slots allocation)
freed-Linked tasks tasks' slots allocation l left k t d h is =
    let (old, other) = left k t d h is in
    let (slot, named) = l k t d old is in
    (get-delete slots allocation d.allocation ∙ rw (flip d.allocation allocation other) slot, named)
  where
    flip : (x y : String) → (x == y) ≡ false → (y == x) ≡ false
    flip x y h = ground (arith, eq_iff x y, eq_iff y x)

-- What the queue and the slots agree on.
pub record Joined (b : QueueBroker) : Type 0 where
  pub consistent : Consistent b.queue
  pub linked : Linked b.queue.tasks b.agents.tasks
