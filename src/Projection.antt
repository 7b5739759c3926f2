-- ===== src/Projection.antt =====
-- control/projection.go: evidence is the only thing that advances the world.
pub mod Volumes
pub mod Snapshots
pub mod Allocations
pub mod Nodes
pub mod Effect
pub mod Refines
pub mod Fencing
pub mod Replay
pub mod Guarantees
pub mod Moves
pub mod Retention
use a4s.Prelude.{
  Bool, true, false, ◌&&◌, not, List, [], ◌∷◌, String, if◌then◌else◌, Result, ok, err, ◌>>=◌,
  incr_uint64,
}
use a4s.Types.World.{World, Time, is_zero_time, before}
use a4s.Types.Evidence.{Evidence, EvidenceKind}
use Volumes
use Snapshots
use Allocations
use Nodes

-- The `switch` of `projectInto`.
unfoldable pub project_kind : EvidenceKind → World → Evidence → Result World
project_kind EvidenceKind.image_present w e = Nodes.image_present w e
project_kind EvidenceKind.allocation_created w e = Allocations.allocation_created w e
project_kind EvidenceKind.secret_mounted w e = Allocations.secret_mounted w e
project_kind EvidenceKind.volume_created w e = Volumes.volume_created w e
project_kind EvidenceKind.volume_attached w e = Volumes.volume_attached w e
project_kind EvidenceKind.volume_detached w e = Volumes.volume_detached w e
project_kind EvidenceKind.volume_snapshotted w e = Volumes.volume_snapshotted w e
project_kind EvidenceKind.volume_restored w e = Snapshots.volume_restored w e
project_kind EvidenceKind.volume_backed_up w e = Volumes.volume_backed_up w e
project_kind EvidenceKind.volume_quiesced w e = Volumes.volume_quiesced w e
project_kind EvidenceKind.volume_transferred w e = Volumes.volume_transferred w e
project_kind EvidenceKind.volume_adopted w e = Volumes.volume_adopted w e
project_kind EvidenceKind.snapshots_pruned w e = Snapshots.snapshots_pruned w e
project_kind EvidenceKind.backup_verified w e = Snapshots.backup_verified w e
project_kind EvidenceKind.database_backed_up w e = Snapshots.database_backed_up w e
project_kind EvidenceKind.network_attached w e = Allocations.network_attached w e
project_kind EvidenceKind.network_detached w e = Allocations.network_detached w e
project_kind EvidenceKind.allocation_running w e = Allocations.allocation_running w e
project_kind EvidenceKind.allocation_ready w e = Allocations.allocation_ready w e
project_kind EvidenceKind.node_cordoned w e = Nodes.node_cordoned w e
project_kind EvidenceKind.node_uncordoned w e = Nodes.node_uncordoned w e
project_kind EvidenceKind.node_reachable w e = Nodes.node_reached true w e
project_kind EvidenceKind.node_unreachable w e = Nodes.node_reached false w e
project_kind EvidenceKind.allocation_stopped w e = Allocations.allocation_stopped w e
project_kind EvidenceKind.allocation_deleted w e = Allocations.allocation_deleted w e
project_kind EvidenceKind.allocation_failed w e = Allocations.allocation_failed w e
project_kind EvidenceKind.route_reachable w e = Nodes.route_reachable w e
project_kind EvidenceKind.route_removed w e = Nodes.route_removed w e
project_kind EvidenceKind.tools_granted w e = Allocations.tools_granted w e
project_kind EvidenceKind.agent_ready w e = Allocations.allocation_ready w e
project_kind EvidenceKind.agent_spent w e = Allocations.agent_spent w e
project_kind EvidenceKind.agent_draining w e = Allocations.agent_draining w e
project_kind EvidenceKind.allocation_drained w e = Allocations.allocation_drained w e
project_kind EvidenceKind.queue_observed w e = Nodes.queue_observed w e
project_kind EvidenceKind.provider_reachable w e = Nodes.provider_reachable w e
project_kind EvidenceKind.policy_applied w e = Nodes.policy_applied w e
project_kind EvidenceKind.zone_published w e = Nodes.zone_published w e
project_kind EvidenceKind.images_collected w e = Nodes.images_collected w e
project_kind EvidenceKind.approval_granted w e = Nodes.approval_granted w e
project_kind EvidenceKind.approval_revoked w e = Nodes.approval_revoked w e
project_kind EvidenceKind.diagnosis_recorded w e = ok w
project_kind (EvidenceKind.other _) w e = err "unknown evidence kind %q"

unfoldable pub observes_nothing : EvidenceKind → Bool
observes_nothing EvidenceKind.diagnosis_recorded = true
observes_nothing _ = false

-- The later of the two observation times, if the evidence has one.
unfoldable pub advance : World → World → Evidence → World
advance w next e = record next {
  revision = incr_uint64 w.revision;
  observed_at =
      if not (is_zero_time e.observed_at) && before next.observed_at e.observed_at
      then e.observed_at
      else next.observed_at;
}

-- `Project`. Values do not alias here, so `cloneWorld` is the identity.
unfoldable pub project : World → Evidence → Result World
unfolding advance
project w e = do
  next ← project_kind e.kind w e
  ok (if observes_nothing e.kind then next else advance w next e)

-- The world that a log of evidence rebuilds, in order.
unfoldable pub replay : World → List Evidence → Result World
replay w [] = ok w
replay w (e ∷ es) = do next ← project w e; replay next es
