-- ===== src/Kernel/Workload.antt =====
-- control/policy.go and control/spread.go: the validators of the actions on allocations.
use a4s.Prelude.{
  Bool, true, false, ◌&&◌, ◌||◌, not, Option, some, none, List, [], ◌∷◌, String, ◌==◌, pos, lt_ℤ,
  le_ℤ, sub_int, eqb, if◌then◌else◌, Result, ok, ◌>>=◌, ◌>>◌, require, refuse, or_fail,
}
use a4s.Prelude.Map
use a4s.Prelude.Map.{Map}
use a4s.Types.Budget
use a4s.Types.Resources
use a4s.Types.Goal.{Goal, AgentRuntime, SecretRef, VolumeRef, max_per_domain}
use a4s.Types.World.{
  World, Node, Allocation, Time, now, created, running, phase_is, exhausted, ready_at, can_reach,
  failure_domain,
}
use a4s.Types.Action.{Action}
use a4s.Projection.Volumes.{has}
use a4s.Kernel.Rules.{
  text_at, is_empty, has_approval, node_allowed, disruption_floor, serving_allocations,
  goal_declares_secret, authorized_replicas, all_declared, action_grants_mutating_tool,
  domain_occupancy,
}

starts_with : String → String → Bool
starts_with String.[] s = true
starts_with (String.◌∷◌ c p) String.[] = false
starts_with (String.◌∷◌ c p) (String.◌∷◌ d s) =
    String.◌∷◌ c String.[] == String.◌∷◌ d String.[] && starts_with p s

-- `strings.Contains(s, part)`
unfoldable pub contains : String → String → Bool
unfolding starts_with
contains String.[] part = starts_with part String.[]
contains (String.◌∷◌ c s) part =
    let later = contains s part in starts_with part (String.◌∷◌ c s) || later

unfoldable pub validate_pull_image : Goal → World → Action → Result (Unit {0})
validate_pull_image g w a = do
  n ← or_fail (Map.get w.nodes a.node) "node %q is missing or unhealthy"
  require n.healthy "node %q is missing or unhealthy"
  require (a.image == g.workload.image && contains a.image "@sha256:")
      "image must match the goal's pinned digest"

unfoldable pub check_spread : Goal → World → Action → Result (Unit {0})
check_spread g w a =
    if le_ℤ (max_per_domain g) (pos 0) then ok tt else elim (Map.get w.nodes a.node) [
      | none ↦ ok tt
      | some n ↦
          refuse
            (le_ℤ (max_per_domain g) (pos (domain_occupancy w g.workload.name (failure_domain n))))
            "failure domain %q already holds %d of at most %d replicas of workload %q"
    ]

unfoldable pub validate_agent_placement : Goal → Node → Action → Time → Result (Unit {0})
validate_agent_placement g n a t = elim g.workload.runtime [
  | none ↦ require (Budget.is_zero a.budget) "only agent workloads may reserve budget"
  | some r ↦ do
    require (Budget.equal a.budget r.budget) "allocation budget differs from goal"
    require (can_reach n r.provider t) "node %q cannot reach provider %q"
    require (Budget.fits (Budget.add n.budget_used a.budget) n.budget_capacity)
        "node %q lacks agent budget capacity"
]

unfoldable pub validate_create_allocation : Time → Goal → World → Action → Result (Unit {0})
unfolding check_spread validate_agent_placement
validate_create_allocation clock g w a = do
  refuse (has w.allocations a.target) "allocation %q already exists"
  n ← or_fail (Map.get w.nodes a.node) "node %q is missing or unhealthy"
  require n.healthy "node %q is missing or unhealthy"
  refuse n.cordoned "node %q is cordoned: %s"
  require (node_allowed g.constraints n) "node %q violates placement constraints"
  require (a.workload == g.workload.name) "workload differs from goal"
  require
      (a.image == g.workload.image && elim (Map.get n.images a.image) [ none ↦ false | some b ↦ b ])
      "pinned image is not present on node %q"
  require (Resources.equal a.resources g.workload.resources) "resources differ from goal"
  require (Resources.fits (Resources.add n.used a.resources) n.capacity) "node %q lacks capacity"
  refuse (lt_ℤ a.replica (pos 0) || le_ℤ (authorized_replicas g w) a.replica)
      "replica index is outside goal"
  check_spread g w a
  validate_agent_placement g n a (now clock w)

abbrev unknown_allocation : String
unknown_allocation = "allocation %q does not exist"

unfoldable pub validate_mount_secret : Goal → World → Action → Result (Unit {0})
validate_mount_secret g w a = do
  allocation ← or_fail (Map.get w.allocations a.target) unknown_allocation
  require (phase_is allocation.phase created) "secrets must be mounted before allocation %q starts"
  ref ← or_fail a.secret "mount secret requires a secret reference"
  require (goal_declares_secret g ref) "secret %q is not declared by the goal"

abbrev is_agent : Goal → Bool
is_agent g = elim g.workload.runtime [ none ↦ false | some _ ↦ true ]

unfoldable pub validate_grant_tools : Time → Goal → World → Action → Result (Unit {0})
validate_grant_tools clock g w a = do
  allocation ← or_fail (Map.get w.allocations a.target) unknown_allocation
  require (phase_is allocation.phase created) "tools must be granted before allocation %q starts"
  require (is_agent g) "tool grants are only for agent workloads"
  require (all_declared g a.tools) "tool %q is not declared by the goal"
  refuse
      (action_grants_mutating_tool a.tools
        && not (has_approval clock w g.id "agent-mutating-tools"))
      "granting mutating tools to %q requires agent-mutating-tools approval"

unfoldable pub validate_drain_allocation : Goal → World → Action → Result (Unit {0})
validate_drain_allocation g w a = do
  allocation ← or_fail (Map.get w.allocations a.target) unknown_allocation
  require (phase_is allocation.phase running) "allocation %q is not running"
  require (is_agent g) "drain is only for agent workloads"
  require (a.workload == allocation.workload) "workload differs from allocation"

unfoldable pub validate_attach_network : Goal → World → Action → Result (Unit {0})
validate_attach_network g w a = do
  allocation ← or_fail (Map.get w.allocations a.target) unknown_allocation
  require (phase_is allocation.phase created) "allocation %q must be attached before it starts"
  require (a.workload == allocation.workload) "workload differs from allocation"

-- The loop over the declared volumes of `validateStartAllocation`.
unfoldable pub volumes_held : World → String → Allocation → List VolumeRef → Result (Unit {0})
volumes_held w target allocation [] = ok tt
volumes_held w target allocation (ref ∷ refs) = do
  v ← or_fail (Map.get w.volumes ref.name) "allocation %q needs volume %q, which does not exist"
  attached ← or_fail (Map.get allocation.volumes ref.name) "allocation %q is missing volume %q"
  require (eqb attached v.generation) "allocation %q holds a fenced generation of volume %q"
  require (v.owner == target) "volume %q is no longer owned by allocation %q"
  volumes_held w target allocation refs

unfoldable pub secrets_held : Allocation → List SecretRef → Result (Unit {0})
secrets_held allocation [] = ok tt
secrets_held allocation (ref ∷ refs) = do
  require (text_at allocation.secrets ref.name == ref.version)
      "allocation %q is missing secret %q version %q"
  secrets_held allocation refs

unfoldable pub agent_starts : Option AgentRuntime → Allocation → Result (Unit {0})
agent_starts none allocation = ok tt
agent_starts (some r) allocation = do
  refuse (not (is_empty r.tools) && is_empty allocation.tools)
      "agent allocation %q has no tool grant"
  refuse (Budget.is_zero allocation.budget) "agent allocation %q holds no budget"
  refuse (exhausted allocation) "agent allocation %q has exhausted its budget"

unfoldable pub validate_start_allocation : Goal → World → Action → Result (Unit {0})
unfolding volumes_held secrets_held agent_starts
validate_start_allocation g w a = do
  allocation ← or_fail (Map.get w.allocations a.target) "allocation %q is not created"
  require (phase_is allocation.phase created) "allocation %q is not created"
  require (a.workload == g.workload.name && allocation.workload == a.workload)
      "workload differs from goal"
  volumes_held w a.target allocation g.workload.volumes
  secrets_held allocation g.workload.secrets
  refuse (lt_ℤ (pos 0) g.workload.port && allocation.address == "")
      "allocation %q has no network address"
  agent_starts g.workload.runtime allocation

unfoldable pub validate_stop_allocation : Time → Goal → World → Action → Result (Unit {0})
validate_stop_allocation clock g w a = do
  allocation ← or_fail (Map.get w.allocations a.target) unknown_allocation
  require (phase_is allocation.phase running) "allocation %q is not running"
  require (a.workload == allocation.workload) "workload differs from allocation"
  refuse (is_agent g && not (allocation.task == "") && not (exhausted allocation))
      "agent allocation %q must be drained before it stops"
  refuse
      (ready_at allocation (now clock w)
        && lt_ℤ (sub_int (pos (serving_allocations clock g w)) (pos 1)) (disruption_floor g))
      "stopping %q would leave %d ready replicas, below the availability floor of %d"

unfoldable pub validate_delete_allocation : Time → Goal → World → Action → Result (Unit {0})
validate_delete_allocation clock g w a = do
  allocation ← or_fail (Map.get w.allocations a.target) unknown_allocation
  refuse (phase_is allocation.phase running) "allocation %q must be stopped before deletion"
  require (a.workload == allocation.workload) "workload differs from allocation"
  require (is_empty allocation.volumes.entries)
      "allocation %q must release its volumes before deletion"
  refuse (allocation.stateful && not (has_approval clock w g.id "destroy-stateful"))
      "deleting stateful allocation %q requires destroy-stateful approval"
