-- ===== src/Kernel/Placement.antt =====
-- control/policy.go and control/spread.go: what an allocation that may be created leaves behind.
use a4s.Prelude.{
  le_of_lt, unit, ◌≡◌, refl, sym, ◌∙◌, ap, true, false, none, some, String, ◌==◌, eq_iff, eq_refl,
  pos, le_ℤ, lt_ℤ, ok, Ensures, Ensures-ok, require-Ensures, refuse-Ensures, or_fail-Ensures,
  bind-Ensures, result-Ensures, arith, inl, inr, Bool-cases, ◌>>=◌, refuse-eq-ok, ok-injective,
  or_fail, is_some-false→none,
}
use a4s.Prelude.Map
use a4s.Prelude.Map.{Map, count, count-put, count-ext, get-put}
use a4s.Types.Resources
use a4s.Types.Goal.{Goal, max_per_domain}
use a4s.Types.World.{World, Allocation, Node, Time, now, schedulable, failure_domain}
use a4s.Types.Action.{Action}
use a4s.Projection.Allocations.{commit_to_node, new_allocation}
use a4s.Kernel.Rules.{occupies, domain_occupancy, node_allowed}
use a4s.Kernel.Workload.{validate_create_allocation, validate_agent_placement, check_spread}
use a4s.Kernel.Simulate.{simulate_create_allocation}

-- What the guards of a creation establish of its node.
record Placed (clock : Time) (g : Goal) (w : World) (a : Action) : Type 0 where
  node : Node
  known : Map.get w.nodes a.node ≡ some node
  new : Map.get w.allocations a.target ≡ none
  healthy : node.healthy ≡ true
  open' : node.cordoned ≡ false
  allowed : node_allowed g.constraints node ≡ true
  fits : Resources.fits (Resources.add node.used a.resources) node.capacity ≡ true
  spread : check_spread g w a ≡ ok tt
  agent : validate_agent_placement g node a (now clock w) ≡ ok tt

create-Placed :
    (clock : Time) (g : Goal) (w : World) (a : Action)
    → Ensures (λ _. Placed clock g w a) (validate_create_allocation clock g w a)
unfolding validate_create_allocation
create-Placed clock g w a = refuse-Ensures _ _ _ λ new. or_fail-Ensures _ _ _ λ n known.
    require-Ensures _ _ _ λ healthy. refuse-Ensures _ _ _ λ open'. require-Ensures _ _ _ λ allowed.
      require-Ensures _ _ _ λ _. require-Ensures _ _ _ λ _. require-Ensures _ _ _ λ _.
        require-Ensures _ _ _ λ fits. refuse-Ensures _ _ _ λ _. bind-Ensures _ _ λ s spread.
          result-Ensures _ λ t agent. record {
            node = n;
            known = known;
            new = is_some-false→none _ new;
            healthy = healthy;
            open' = open';
            allowed = allowed;
            fits = fits;
            spread = spread ∙ ap ok (unit s);
            agent = agent ∙ ap ok (unit t);
          }

-- The world after the creation.
abbrev after : World → Action → Node → World
after w a n = record w {
  allocations =
      Map.put w.allocations a.target
        (new_allocation a.target a.workload a.replica a.node a.image a.resources a.budget);
  nodes = Map.put w.nodes a.node (commit_to_node n a.resources a.budget);
}

simulated_create :
    (w u : World) (a : Action) (n : Node)
    → Map.get w.nodes a.node ≡ some n
    → simulate_create_allocation w a ≡ ok u
    → u ≡ after w a n
unfolding simulate_create_allocation or_fail ◌>>=◌
simulated_create w u a n known sim = sym (ok-injective (rw known at sim))

-- After the simulation of a creation that is allowed, the node of the new allocation is healthy
-- and not cordoned, the constraints of the goal allow it, and what it commits fits its capacity.
pub create-capacity :
    (clock : Time) (g : Goal) (w u : World) (a : Action)
    → validate_create_allocation clock g w a ≡ ok tt
    → simulate_create_allocation w a ≡ ok u
    → (n : Node) × (Map.get u.nodes a.node ≡ some n)
      × (schedulable n ≡ true)
      × (node_allowed g.constraints n ≡ true)
      × (Resources.fits n.used n.capacity ≡ true)
unfolding schedulable node_allowed commit_to_node
create-capacity clock g w u a valid sim =
    let x = Ensures-ok (create-Placed clock g w a) valid in
    let is = simulated_create w u a x.node x.known sim in
    (
      commit_to_node x.node a.resources a.budget,
      ap (λ z. Map.get z.nodes a.node) is ∙ get-put w.nodes a.node a.node _ ∙ rw (eq_refl) refl,
      ground (arith, x.healthy, x.open'),
      x.allowed,
      x.fits,
    )

occupies-after :
    (w : World) (a : Action) (n : Node) (workload domain : String)
    → Map.get w.nodes a.node ≡ some n
    → (b : Allocation) → occupies (after w a n) workload domain b ≡ occupies w workload domain b
unfolding occupies commit_to_node failure_domain
occupies-after w a n workload domain known b =
    let put = get-put w.nodes a.node b.node (commit_to_node n a.resources a.budget) in
    elim (Bool-cases (a.node == b.node)) [
      | inl same ↦
          let here = ap (Map.get w.nodes) (sym ((eq_iff a.node b.node).0 same)) ∙ known in
          rw (put, same, here) refl
      | inr other ↦ rw (put, other) refl
    ]

spread-room :
    (g : Goal) (w : World) (a : Action) (n : Node)
    → Map.get w.nodes a.node ≡ some n
    → lt_ℤ (pos 0) (max_per_domain g) ≡ true
    → check_spread g w a ≡ ok tt
    → le_ℤ (max_per_domain g) (pos (domain_occupancy w g.workload.name (failure_domain n))) ≡ false
unfolding check_spread
spread-room g w a n known on h = refuse-eq-ok _ _ (rw (le_of_lt (max_per_domain g) on, known) at h)

-- After the simulation of a creation that is allowed, the failure domain of the node that it uses
-- holds no more replicas of the goal's workload than the spread ceiling, where the goal sets one.
pub create-spread :
    (clock : Time) (g : Goal) (w u : World) (a : Action) (n : Node)
    → validate_create_allocation clock g w a ≡ ok tt
    → simulate_create_allocation w a ≡ ok u
    → Map.get w.nodes a.node ≡ some n
    → lt_ℤ (pos 0) (max_per_domain g) ≡ true
    → le_ℤ (pos (domain_occupancy u g.workload.name (failure_domain n))) (max_per_domain g) ≡ true
unfolding domain_occupancy
create-spread clock g w u a n valid sim known on =
    let x = Ensures-ok (create-Placed clock g w a) valid in
    let is = simulated_create w u a n known sim in
    let d = failure_domain n in
    let p = occupies (after w a n) g.workload.name d in
    let more =
      count-put p w.allocations a.target
        (new_allocation a.target a.workload a.replica a.node a.image a.resources a.budget) in
    let same =
      count-ext p (occupies w g.workload.name d) w.allocations
        (occupies-after w a n g.workload.name d known) in
    let room = spread-room g w a n known on x.spread in rw is (ground (arith, more, same, room))
