-- ===== src/Kernel/Authorize.antt =====
-- control/policy.go, `Kernel.Authorize`: a plan is proved valid from end to end on a copy of the
-- world before the first mutation.
use a4s.Prelude.{
  Bool, true, false, ◌&&◌, ◌||◌, not, Option, some, none, List, [], ◌∷◌, String, ◌==◌, pos, lt_ℤ,
  eqb, Result, ok, err, ◌>>=◌, ◌>>◌, require, refuse,
}
use a4s.Prelude.Map.{Map}
use a4s.Types.Goal.{Goal}
use a4s.Types.World.{World, Time, now}
use a4s.Types.Action.{Action, ActionKind, Check, Proposal, AgentDescriptor}
use a4s.Kernel.Policy.{Policy, grants_of, granted}
use a4s.Kernel.Rules.{mem, is_empty}
use a4s.Kernel.Storage
use a4s.Kernel.Workload
use a4s.Kernel.Fabric
use a4s.Kernel.Simulate.{simulate_kind}
use a4s.Kernel.Governor.{check_disruption_budget, check_backoff, check_cluster_budget, size}
use a4s.Kernel.Provenance.{Signing, check_image_provenance}

-- `actionValidators`
unfoldable pub validate_kind : Time → ActionKind → Goal → World → Action → Result (Unit {0})
validate_kind clock ActionKind.pull_image g w a = Workload.validate_pull_image g w a
validate_kind clock ActionKind.create_allocation g w a =
    Workload.validate_create_allocation clock g w a
validate_kind clock ActionKind.create_volume g w a = Storage.validate_create_volume g w a
validate_kind clock ActionKind.attach_volume g w a = Storage.validate_attach_volume g w a
validate_kind clock ActionKind.detach_volume g w a = Storage.validate_detach_volume g w a
validate_kind clock ActionKind.snapshot_volume g w a = Storage.validate_snapshot_volume g w a
validate_kind clock ActionKind.quiesce_volume g w a = Storage.validate_quiesce_volume clock g w a
validate_kind clock ActionKind.transfer_volume g w a = Storage.validate_transfer_volume g w a
validate_kind clock ActionKind.adopt_volume g w a = Storage.validate_adopt_volume g w a
validate_kind clock ActionKind.database_backup g w a = Storage.validate_database_backup g w a
validate_kind clock ActionKind.verify_backup g w a = Storage.validate_verify_backup g w a
validate_kind clock ActionKind.prune_snapshots g w a = Storage.validate_prune_snapshots g w a
validate_kind clock ActionKind.collect_images g w a = Fabric.validate_collect_images g w a
validate_kind clock ActionKind.publish_zone g w a = Fabric.validate_publish_zone g w a
validate_kind clock ActionKind.apply_policy g w a = Fabric.validate_apply_policy g w a
validate_kind clock ActionKind.backup_snapshot g w a = Storage.validate_backup_snapshot g w a
validate_kind clock ActionKind.restore_snapshot g w a =
    Storage.validate_restore_snapshot clock g w a
validate_kind clock ActionKind.mount_secret g w a = Workload.validate_mount_secret g w a
validate_kind clock ActionKind.grant_tools g w a = Workload.validate_grant_tools clock g w a
validate_kind clock ActionKind.drain_allocation g w a = Workload.validate_drain_allocation g w a
validate_kind clock ActionKind.attach_network g w a = Workload.validate_attach_network g w a
validate_kind clock ActionKind.start_allocation g w a = Workload.validate_start_allocation g w a
validate_kind clock ActionKind.stop_allocation g w a = Workload.validate_stop_allocation clock g w a
validate_kind clock ActionKind.delete_allocation g w a =
    Workload.validate_delete_allocation clock g w a
validate_kind clock ActionKind.publish_route g w a = Fabric.validate_publish_route clock g w a
validate_kind clock ActionKind.cordon_node g w a = Fabric.validate_cordon_node g w a
validate_kind clock ActionKind.uncordon_node g w a = Fabric.validate_uncordon_node g w a
validate_kind clock ActionKind.probe_readiness g w a = err "unknown action kind %q"
validate_kind clock (ActionKind.other _) g w a = err "unknown action kind %q"

abbrev pub all_completed : List String → List String → Bool
all_completed [] completed = true
all_completed (d ∷ ds) completed = mem d completed && all_completed ds completed

-- One action of the loop, on the simulated world.
unfoldable pub step_action : Time → Goal → Map Bool → List String → World → Action → Result World
step_action clock g grants completed w a = do
  refuse (a.id == "" || mem a.id completed) "action ids must be non-empty and unique"
  require (granted grants a.kind) "agent %q is not granted %s"
  require (all_completed a.depends_on completed) "action %q has unsatisfied dependency %q"
  validate_kind clock a.kind g w a
  simulate_kind a.kind w a

-- The loop of `Authorize`, with the ids of the actions that are done.
unfoldable pub run_plan : Time → Goal → Map Bool → List String → World → List Action → Result World
unfolding step_action
run_plan clock g grants completed w [] = ok w
run_plan clock g grants completed w (a ∷ as') = do
  next ← step_action clock g grants completed w a
  run_plan clock g grants (a.id ∷ completed) next as'

-- control/policy.go, `requireEvidenceChecks`.
abbrev pub required_kind : Goal → ActionKind → Option String
required_kind g ActionKind.start_allocation = elim g.workload.runtime [
  | none ↦ some "allocation_ready"
  | some _ ↦ some "agent_ready"
]
required_kind g ActionKind.publish_route = some "route_reachable"
required_kind g ActionKind.drain_allocation = some "allocation_drained"
required_kind g _ = none

abbrev pub expects : String → String → List Check → Bool
expects kind target [] = false
expects kind target (c ∷ cs) =
    (c.kind == kind && c.target == target && c.want == "true") || expects kind target cs

unfoldable pub require_evidence_checks : Goal → List Check → List Action → Result (Unit {0})
require_evidence_checks g checks [] = ok tt
require_evidence_checks g checks (a ∷ as') = do
  require (elim (required_kind g a.kind) [ none ↦ true | some kind ↦ expects kind a.target checks ])
      "action %q requires %s evidence"
  require_evidence_checks g checks as'

unfoldable pub authorize :
    Time → Signing → Policy → AgentDescriptor → Goal → World → Proposal → Result (Unit {0})
unfolding run_plan require_evidence_checks check_disruption_budget check_backoff
    check_image_provenance check_cluster_budget
authorize clock lib p actor g w proposal = do
  require (proposal.agent_id == actor.id) "proposal agent %q does not match authenticated actor %q"
  refuse (proposal.agent_id == "" || not (proposal.goal_id == g.id))
      "proposal identity does not match goal"
  require (eqb proposal.based_on_revision w.revision)
      "stale proposal: based on revision %d, current revision is %d"
  refuse (is_empty proposal.actions) "proposal contains no actions"
  refuse (lt_ℤ p.max_actions_per_proposal (pos (size proposal.actions)))
      "proposal exceeds %d action limit"
  refuse (is_empty (grants_of p proposal.agent_id).entries) "agent %q has no capability grants"
  final ← run_plan clock g (grants_of p proposal.agent_id) [] w proposal.actions
  require_evidence_checks g proposal.expected_evidence proposal.actions
  check_disruption_budget clock p w proposal
  check_backoff w (now clock w) proposal.actions
  check_image_provenance lib p g (now clock w) proposal.actions
  check_cluster_budget p w proposal
