-- ===== src/Projection/Refines.antt =====
-- control/projection.go: the cases of `projectInto` against the effects of Effect.antt.
use a4s.Prelude.{
  ◌≡◌, refl, Bool, true, false, ok, done, failed, Ensures, Ensures-ok, bind-Ensures, if◌then◌else◌,
}
use a4s.Types.World.{World}
use a4s.Types.Evidence.{Evidence, EvidenceKind}
use a4s.Projection.{project_kind, project, advance}
use a4s.Projection.Effect.{Effect, elsewhere, Effect-same}
use a4s.Projection.Effect.Allocations
use a4s.Projection.Effect.Volumes
use a4s.Projection.Effect.Nodes

project_kind-Effect :
    (k : EvidenceKind) (w : World) (e : Evidence) → Ensures (Effect w) (project_kind k w e)
unfolding project_kind
project_kind-Effect EvidenceKind.image_present w e = Nodes.image_present-Effect w e
project_kind-Effect EvidenceKind.allocation_created w e = Allocations.allocation_created-Effect w e
project_kind-Effect EvidenceKind.secret_mounted w e = Allocations.secret_mounted-Effect w e
project_kind-Effect EvidenceKind.volume_created w e = Volumes.volume_created-Effect w e
project_kind-Effect EvidenceKind.volume_attached w e = Volumes.volume_attached-Effect w e
project_kind-Effect EvidenceKind.volume_detached w e = Volumes.volume_detached-Effect w e
project_kind-Effect EvidenceKind.volume_snapshotted w e = Volumes.volume_snapshotted-Effect w e
project_kind-Effect EvidenceKind.volume_restored w e = Volumes.volume_restored-Effect w e
project_kind-Effect EvidenceKind.volume_backed_up w e = Volumes.volume_backed_up-Effect w e
project_kind-Effect EvidenceKind.volume_quiesced w e = Volumes.volume_quiesced-Effect w e
project_kind-Effect EvidenceKind.volume_transferred w e = Volumes.volume_transferred-Effect w e
project_kind-Effect EvidenceKind.volume_adopted w e = Volumes.volume_adopted-Effect w e
project_kind-Effect EvidenceKind.snapshots_pruned w e = Volumes.snapshots_pruned-Effect w e
project_kind-Effect EvidenceKind.backup_verified w e = Volumes.backup_verified-Effect w e
project_kind-Effect EvidenceKind.database_backed_up w e = Volumes.database_backed_up-Effect w e
project_kind-Effect EvidenceKind.network_attached w e = Allocations.network_attached-Effect w e
project_kind-Effect EvidenceKind.network_detached w e = Allocations.network_detached-Effect w e
project_kind-Effect EvidenceKind.allocation_running w e = Allocations.allocation_running-Effect w e
project_kind-Effect EvidenceKind.allocation_ready w e = Allocations.allocation_ready-Effect w e
project_kind-Effect EvidenceKind.node_cordoned w e = Nodes.node_cordoned-Effect w e
project_kind-Effect EvidenceKind.node_uncordoned w e = Nodes.node_uncordoned-Effect w e
project_kind-Effect EvidenceKind.node_reachable w e = Nodes.node_reached-Effect w e true
project_kind-Effect EvidenceKind.node_unreachable w e = Nodes.node_reached-Effect w e false
project_kind-Effect EvidenceKind.allocation_stopped w e = Allocations.allocation_stopped-Effect w e
project_kind-Effect EvidenceKind.allocation_deleted w e = Allocations.allocation_deleted-Effect w e
project_kind-Effect EvidenceKind.allocation_failed w e = Allocations.allocation_failed-Effect w e
project_kind-Effect EvidenceKind.route_reachable w e = Nodes.route_reachable-Effect w e
project_kind-Effect EvidenceKind.route_removed w e = Nodes.route_removed-Effect w e
project_kind-Effect EvidenceKind.tools_granted w e = Allocations.tools_granted-Effect w e
project_kind-Effect EvidenceKind.agent_ready w e = Allocations.allocation_ready-Effect w e
project_kind-Effect EvidenceKind.agent_spent w e = Allocations.agent_spent-Effect w e
project_kind-Effect EvidenceKind.agent_draining w e = Allocations.agent_draining-Effect w e
project_kind-Effect EvidenceKind.allocation_drained w e = Allocations.allocation_drained-Effect w e
project_kind-Effect EvidenceKind.queue_observed w e = Nodes.queue_observed-Effect w e
project_kind-Effect EvidenceKind.provider_reachable w e = Nodes.provider_reachable-Effect w e
project_kind-Effect EvidenceKind.policy_applied w e = Nodes.policy_applied-Effect w e
project_kind-Effect EvidenceKind.zone_published w e = Nodes.zone_published-Effect w e
project_kind-Effect EvidenceKind.images_collected w e = Nodes.images_collected-Effect w e
project_kind-Effect EvidenceKind.approval_granted w e = Nodes.approval_granted-Effect w e
project_kind-Effect EvidenceKind.approval_revoked w e = Nodes.approval_revoked-Effect w e
project_kind-Effect EvidenceKind.diagnosis_recorded w e = done (elsewhere refl refl)
project_kind-Effect (EvidenceKind.other _) w e = failed

settle :
    (w next : World) (e : Evidence) (b : Bool)
    → Effect w next
    → Effect w (if b then next else advance w next e)
unfolding advance
settle w next e true h = h
settle w next e false h = Effect-same h refl refl

project-Ensures : (w : World) (e : Evidence) → Ensures (Effect w) (project w e)
unfolding project
project-Ensures w e =
    bind-Ensures _ _ λ next accepted.
      done (settle w next e _ (Ensures-ok (project_kind-Effect e.kind w e) accepted))

-- Evidence that is accepted does to the allocations and the volumes of a world just one of the
-- things that `Effect` lists, whatever its kind.
pub project-Effect : (w : World) (e : Evidence) {u : World} → project w e ≡ ok u → Effect w u
project-Effect w e h = Ensures-ok (project-Ensures w e) h
