-- ===== src/Remediation/Repairs.antt =====
-- control/remediation.go: what the agent may propose.
use a4s.Prelude.{
  ◌≡◌, ◌≢◌, refl, sym, ◌∙◌, ap, true, false, ◌&&◌, not, none, some, List, [], ◌∷◌, String, ◌==◌,
  eq_iff, eq_refl, arith, ℕ, pos, le_ℤ, Bool-cases, inl, inr, true-false, Option-cases,
  some-injective,
}
use Prim.Native.String.{◌++◌}
use a4s.Prelude.Map
use a4s.Prelude.Map.{Map}
use a4s.Prelude.Map.Keys.{is_distinct}
use a4s.Types.Goal.{Goal}
use a4s.Types.World.{
  World, Node, Allocation, Backoff, AllocationPhase, created, running, stopped, phase_is,
}
use a4s.Types.Action.{Action, ActionKind}
use a4s.Remediation.Searches.{least_where, none_where}
use a4s.Remediation.{
  action, is_unhealthy, holds_workload, is_retirable, is_evacuable, has_given_up, on_cordoned,
  failed_node_holding, retirable_allocation, evacuable_allocation, propose,
}

-- A node that failed and is in service, and an allocation of the workload on it.
pub record FailedNode (g : Goal) (w : World) (id : String) : Type 0 where
  node : Node
  known : Map.get w.nodes id ≡ some node
  failed : node.healthy ≡ false
  in_service : node.cordoned ≡ false
  allocation_id : String
  allocation : Allocation
  placed : Map.get w.allocations allocation_id ≡ some allocation
  of_workload : allocation.workload ≡ g.workload.name
  on_node : allocation.node ≡ id

-- An allocation of the workload that is stopped and has failed less than three times.
pub record Stopped (g : Goal) (w : World) (id : String) : Type 0 where
  allocation : Allocation
  known : Map.get w.allocations id ≡ some allocation
  of_workload : allocation.workload ≡ g.workload.name
  is_stopped : allocation.phase ≡ stopped
  few_failures : (b : Backoff) → Map.get w.backoff id ≡ some b → le_ℤ (pos 3) b.failures ≡ false

-- An allocation of the workload that is not stopped, on a node that is out of service.
pub record Stranded (g : Goal) (w : World) (id : String) : Type 0 where
  allocation : Allocation
  known : Map.get w.allocations id ≡ some allocation
  of_workload : allocation.workload ≡ g.workload.name
  is_live : allocation.phase ≢ stopped
  node : Node
  placed : Map.get w.nodes allocation.node ≡ some node
  out_of_service : node.cordoned ≡ true

abbrev None : (String → Type 0) → Type 0
None P = (id : String) → P id → ⊥

-- The ladder: a failed node is cordoned; without one, a stopped allocation is deleted; without either,
-- a stranded allocation is stopped and then deleted; without any of them, nothing is done.
pub data Repair (g : Goal) (w : World) : List Action → Type 0 where
  nothing : None (FailedNode g w) → None (Stopped g w) → None (Stranded g w) → Repair g w []
  cordon :
      (id : String)
      → FailedNode g w id
      → Repair g w (
          action
            ("cordon-" ++ id)
            ActionKind.cordon_node
            id
            ""
            ("unhealthy node holding " ++ g.workload.name)
            []
          ∷ [])
  retire :
      (id : String)
      → None (FailedNode g w)
      → Stopped g w id
      → Repair g w
          (action ("delete-" ++ id) ActionKind.delete_allocation id g.workload.name "" [] ∷ [])
  move :
      (id : String)
      → None (FailedNode g w)
      → None (Stopped g w)
      → Stranded g w id
      → Repair g w (
          action ("stop-" ++ id) ActionKind.stop_allocation id g.workload.name "" []
          ∷ action
              ("delete-" ++ id)
              ActionKind.delete_allocation
              id
              g.workload.name
              ""
              (("stop-" ++ id) ∷ [])
          ∷ [])

holds-found :
    (as' : List (String × Allocation)) (workload node : String)
    → is_distinct (record { entries = as' }) ≡ true
    → holds_workload workload node as' ≡ true
    → (id : String) × (a : Allocation) × (Map.get (record { entries = as' }) id ≡ some a)
      × (a.workload ≡ workload)
      × (a.node ≡ node)
unfolding Map.get is_distinct
holds-found [] workload node d h = cc
holds-found ((j, x) ∷ as') workload node d h =
    elim (Bool-cases (x.workload == workload && x.node == node)) [
      | inl e ↦ (
        j,
        x,
        rw (eq_refl j) refl,
        (eq_iff x.workload workload).0 (ground (arith, e)),
        (eq_iff x.node node).0 (ground (arith, e)),
      )
      | inr e ↦ passed (holds-found as' workload node (ground (arith, d)) (ground (arith, h, e)))
    ]
  where
    apart :
        (id : String) (a : Allocation)
        → Map.get (record { entries = as' }) id ≡ some a
        → (j == id) ≡ false
    apart id a at = ground (arith, d, at, eq_iff j id)

    passed :
        (id : String) × (a : Allocation) × (Map.get (record { entries = as' }) id ≡ some a)
          × (a.workload ≡ workload)
          × (a.node ≡ node)
        → (id : String) × (a : Allocation) × (Map.get (record { entries = (j, x) ∷ as' }) id
            ≡ some a)
          × (a.workload ≡ workload)
          × (a.node ≡ node)
    passed (id, a, at, p, q) = (id, a, rw (apart id a at) at, p, q)

holds-there :
    (as' : List (String × Allocation)) (workload node id : String) (a : Allocation)
    → Map.get (record { entries = as' }) id ≡ some a
    → a.workload ≡ workload
    → a.node ≡ node
    → holds_workload workload node as' ≡ true
unfolding Map.get
holds-there [] workload node id a h p q = cc
holds-there ((j, x) ∷ as') workload node id a h p q = elim (Bool-cases (j == id)) [
  | inl e ↦
      let same : x ≡ a = some-injective (rw e at h) in
      let on : (x.workload == workload) ≡ true =
        (eq_iff x.workload workload).1 (ap workload_of same ∙ p) in
      let at : (x.node == node) ≡ true = (eq_iff x.node node).1 (ap node_of same ∙ q) in
      ground (arith, on, at)
  | inr e ↦ ground (arith, holds-there as' workload node id a (rw e at h) p q)
]
  where
    workload_of : Allocation → String
    workload_of y = y.workload

    node_of : Allocation → String
    node_of y = y.node

is-stopped : (p : AllocationPhase) → phase_is p stopped ≡ true → p ≡ stopped
is-stopped created h = cc
is-stopped running h = cc
is-stopped stopped h = refl

not-stopped : (p : AllocationPhase) → phase_is p stopped ≡ false → p ≢ stopped
not-stopped p h e = true-false (sym (ap (λ x. phase_is x stopped) e) ∙ h)

is_live : (p : AllocationPhase) → p ≢ stopped → phase_is p stopped ≡ false
is_live created h = refl
is_live running h = refl
is_live stopped h = absurd (h refl)

unhealthy-FailedNode :
    (g : Goal) (w : World) (id : String) (n : Node)
    → is_distinct w.allocations ≡ true
    → Map.get w.nodes id ≡ some n
    → (is_unhealthy id n && holds_workload g.workload.name id w.allocations.entries) ≡ true
    → FailedNode g w id
unhealthy-FailedNode g w id n d at t =
    let (aid, a, placed, of_workload, on_node) =
      holds-found w.allocations.entries g.workload.name id d (ground (arith, t)) in
    record {
      node = n;
      known = at;
      failed = ground (arith, t);
      in_service = ground (arith, t);
      allocation_id = aid;
      allocation = a;
      placed = placed;
      of_workload = of_workload;
      on_node = on_node;
    }

none-FailedNode :
    (g : Goal) (w : World)
    → (failed_node_holding w g.workload.name == "") ≡ true
    → Map.get w.nodes "" ≡ none
    → None (FailedNode g w)
unfolding failed_node_holding
none-FailedNode g w h blank id f = none_where w.nodes _ h blank id f.node f.known (
    ground (
      arith,
      f.failed,
      f.in_service,
      holds-there w.allocations.entries g.workload.name id f.allocation_id f.allocation f.placed
          f.of_workload f.on_node,
    ))

few :
    (w : World) (id : String) (b : Backoff)
    → Map.get w.backoff id ≡ some b
    → has_given_up w id ≡ false
    → le_ℤ (pos 3) b.failures ≡ false
few w id b at h = rw (has_given_up, at) at h

not_given_up :
    (w : World) (id : String)
    → ((b : Backoff) → Map.get w.backoff id ≡ some b → le_ℤ (pos 3) b.failures ≡ false)
    → has_given_up w id ≡ false
not_given_up w id h = elim (Option-cases (Map.get w.backoff id)) [
  | inl e ↦ rw (has_given_up, e) refl
  | inr (b, e) ↦ rw (has_given_up, e) (h b e)
]

on-cordoned :
    (w : World) (a : Allocation) (n : Node)
    → Map.get w.nodes a.node ≡ some n
    → n.cordoned ≡ true
    → on_cordoned w a ≡ true
on-cordoned w a n at h = rw (on_cordoned, at) h

cordoned_node :
    (w : World) (a : Allocation)
    → on_cordoned w a ≡ true
    → (n : Node) × (Map.get w.nodes a.node ≡ some n) × (n.cordoned ≡ true)
cordoned_node w a h = elim (Option-cases (Map.get w.nodes a.node)) [
  | inl e ↦ absurd (true-false (sym (rw (on_cordoned, e) at h)))
  | inr (n, e) ↦ (n, e, rw (on_cordoned, e) at h)
]

retirable-Stopped :
    (g : Goal) (w : World) (id : String) (a : Allocation)
    → Map.get w.allocations id ≡ some a
    → is_retirable w g.workload.name id a ≡ true
    → Stopped g w id
retirable-Stopped g w id a at t = record {
  allocation = a;
  known = at;
  of_workload = (eq_iff a.workload g.workload.name).0 (ground (arith, t));
  is_stopped = is-stopped a.phase (ground (arith, t));
  few_failures = λ b found. few w id b found (ground (arith, t));
}

none-Stopped :
    (g : Goal) (w : World)
    → (retirable_allocation w g.workload.name == "") ≡ true
    → Map.get w.allocations "" ≡ none
    → None (Stopped g w)
unfolding retirable_allocation
none-Stopped g w h blank id f = none_where w.allocations _ h blank id f.allocation f.known (
    ground (
      arith,
      (eq_iff f.allocation.workload g.workload.name).1 f.of_workload,
      ap (λ p. phase_is p stopped) f.is_stopped,
      not_given_up w id f.few_failures,
    ))

evacuable-Stranded :
    (g : Goal) (w : World) (id : String) (a : Allocation)
    → Map.get w.allocations id ≡ some a
    → is_evacuable w g.workload.name id a ≡ true
    → Stranded g w id
evacuable-Stranded g w id a at t =
    let (n, placed, out) = cordoned_node w a (ground (arith, t)) in
    record {
      allocation = a;
      known = at;
      of_workload = (eq_iff a.workload g.workload.name).0 (ground (arith, t));
      is_live = not-stopped a.phase (ground (arith, t));
      node = n;
      placed = placed;
      out_of_service = out;
    }

none-Stranded :
    (g : Goal) (w : World)
    → (evacuable_allocation w g.workload.name == "") ≡ true
    → Map.get w.allocations "" ≡ none
    → None (Stranded g w)
unfolding evacuable_allocation
none-Stranded g w h blank id f = none_where w.allocations _ h blank id f.allocation f.known (
    ground (
      arith,
      (eq_iff f.allocation.workload g.workload.name).1 f.of_workload,
      is_live f.allocation.phase f.is_live,
      on-cordoned w f.allocation f.node f.placed f.out_of_service,
    ))

stays_blank : (s : String) → not (s == "") ≡ false → (s == "") ≡ true
stays_blank s h = ground (arith, h)

cordon_case :
    (g : Goal) (w : World) (id : String)
    → is_distinct w.allocations ≡ true
    → (n : Node) × (Map.get w.nodes id ≡ some n)
      × ((is_unhealthy id n && holds_workload g.workload.name id w.allocations.entries) ≡ true)
    → FailedNode g w id
cordon_case g w id d (n, at, t) = unhealthy-FailedNode g w id n d at t

retire_case :
    (g : Goal) (w : World) (id : String)
    → (a : Allocation) × (Map.get w.allocations id ≡ some a)
      × (is_retirable w g.workload.name id a ≡ true)
    → Stopped g w id
retire_case g w id (a, at, t) = retirable-Stopped g w id a at t

move_case :
    (g : Goal) (w : World) (id : String)
    → (a : Allocation) × (Map.get w.allocations id ≡ some a)
      × (is_evacuable w g.workload.name id a ≡ true)
    → Stranded g w id
move_case g w id (a, at, t) = evacuable-Stranded g w id a at t

-- In a world whose maps hold a key once and no blank key, the agent takes the first repair of the
-- ladder that has work, for a node or an allocation in the state that the repair is for, and proposes
-- nothing only when there is nothing to repair.
pub propose-repairs :
    (render : String → ℕ → String) (g : Goal) (w : World)
    → is_distinct w.nodes ≡ true
    → is_distinct w.allocations ≡ true
    → Map.get w.nodes "" ≡ none
    → Map.get w.allocations "" ≡ none
    → Repair g w (propose render g w).actions
unfolding propose failed_node_holding retirable_allocation evacuable_allocation
propose-repairs render g w dn da bn ba =
    elim (Bool-cases (not (failed_node_holding w g.workload.name == ""))) [
      | inl e ↦ rw (e) (Repair.cordon _ (cordon_case g w _ da (least_where w.nodes _ dn e)))
      | inr e ↦
          let no_failed =
            none-FailedNode g w (stays_blank (failed_node_holding w g.workload.name) e) bn in
          elim (Bool-cases (not (retirable_allocation w g.workload.name == ""))) [
            | inl f ↦
                rw (e, f)
                  (Repair.retire _ no_failed (retire_case g w _ (least_where w.allocations _ da f)))
            | inr f ↦
                let no_stopped =
                  none-Stopped g w (stays_blank (retirable_allocation w g.workload.name) f) ba in
                elim (Bool-cases (not (evacuable_allocation w g.workload.name == ""))) [
                  | inl h ↦
                      rw (e, f, h)
                        (Repair.move _ no_failed no_stopped
                          (move_case g w _ (least_where w.allocations _ da h)))
                  | inr h ↦
                      rw (e, f, h)
                        (Repair.nothing no_failed no_stopped (
                          none-Stranded g w (stays_blank (evacuable_allocation w g.workload.name) h)
                            ba))
                ]
          ]
    ]
