-- ===== src/Kernel/Storage.antt =====
-- control/policy.go: the validators of the actions on volumes.
use a4s.Prelude.{
  String, ◌&&◌, not, some, none, ◌==◌, pos, lt_ℤ, Result, ok, err, ◌>>=◌, ◌>>◌, require, refuse,
  or_fail,
}
use a4s.Prelude.Map
use a4s.Types.Goal.{Goal}
use a4s.Types.World.{World, Time, created, running, phase_is, snapshotted, transferred, handoff_is}
use a4s.Types.Action.{Action}
use a4s.Projection.Volumes.{has}
use a4s.Kernel.Rules.{has_approval, declares_volume}

abbrev no_volume : String
no_volume = "action requires a volume reference"

abbrev unknown_volume : String
unknown_volume = "volume %q does not exist"

unfoldable pub validate_create_volume : Goal → World → Action → Result (Unit {0})
validate_create_volume g w a = do
  ref ← or_fail a.volume no_volume
  require (declares_volume g.workload.volumes ref.name) "volume %q is not declared by the goal"
  n ← or_fail (Map.get w.nodes a.node) "node %q is missing or unhealthy"
  require n.healthy "node %q is missing or unhealthy"
  refuse n.cordoned "node %q is cordoned: %s"
  elim (Map.get w.volumes ref.name) [
    | none ↦ ok tt
    | some existing ↦ require (existing.node == a.node) "volume %q already exists on node %q"
  ]

unfoldable pub validate_attach_volume : Goal → World → Action → Result (Unit {0})
validate_attach_volume g w a = do
  ref ← or_fail a.volume no_volume
  allocation ← or_fail (Map.get w.allocations a.target) "allocation %q does not exist"
  require (phase_is allocation.phase created) "volumes must be attached before allocation %q starts"
  v ← or_fail (Map.get w.volumes ref.name) unknown_volume
  require (declares_volume g.workload.volumes ref.name) "volume %q is not declared by the goal"
  refuse (not (v.owner == "") && not (v.owner == a.target)) "volume %q is owned by allocation %q"
  elim v.handoff [
    | some h ↦ err "volume %q is being moved to node %q and cannot be attached"
    | none ↦
        require (v.node == allocation.node) "volume %q lives on node %q but allocation %q is on %q"
  ]

unfoldable pub validate_detach_volume : Goal → World → Action → Result (Unit {0})
validate_detach_volume g w a = do
  ref ← or_fail a.volume no_volume
  v ← or_fail (Map.get w.volumes ref.name) unknown_volume
  refuse (not (v.owner == "") && not (v.owner == a.target)) "allocation %q does not own volume %q"
  elim (Map.get w.allocations a.target) [
    | none ↦ ok tt
    | some allocation ↦
        refuse (phase_is allocation.phase running)
          "allocation %q must stop before releasing volume %q"
  ]

unfoldable pub validate_snapshot_volume : Goal → World → Action → Result (Unit {0})
validate_snapshot_volume g w a = do
  ref ← or_fail a.volume no_volume
  v ← or_fail (Map.get w.volumes ref.name) unknown_volume
  require (g.workload.engine == "") "volume %q backs a %s database; use database_backup"
  require (v.owner == "") "volume %q must be quiesced before snapshotting; it is attached to %q"

unfoldable pub validate_quiesce_volume : Time → Goal → World → Action → Result (Unit {0})
validate_quiesce_volume clock g w a = do
  ref ← or_fail a.volume no_volume
  v ← or_fail (Map.get w.volumes ref.name) unknown_volume
  require (v.owner == "") "volume %q must be detached before a move; it is held by %q"
  target ← or_fail (Map.get w.nodes a.node) "handoff target %q is missing or unhealthy"
  require target.healthy "handoff target %q is missing or unhealthy"
  refuse target.cordoned "handoff target %q is cordoned: %s"
  refuse (a.node == v.node) "volume %q already lives on node %q"
  require (has_approval clock w g.id "move-volume") "moving volume %q requires move-volume approval"

unfoldable pub validate_transfer_volume : Goal → World → Action → Result (Unit {0})
validate_transfer_volume g w a = do
  ref ← or_fail a.volume no_volume
  v ← or_fail (Map.get w.volumes ref.name) unknown_volume
  h ← or_fail v.handoff "volume %q has no handoff in progress"
  require (handoff_is h.phase snapshotted) "volume %q must be snapshotted before transfer, not %q"
  require (a.node == h.to) "transfer target %q is not the handoff target %q"

unfoldable pub validate_adopt_volume : Goal → World → Action → Result (Unit {0})
validate_adopt_volume g w a = do
  ref ← or_fail a.volume no_volume
  v ← or_fail (Map.get w.volumes ref.name) unknown_volume
  h ← or_fail v.handoff "volume %q has no handoff in progress"
  require (handoff_is h.phase transferred) "volume %q must be transferred before adoption, not %q"
  require (a.node == h.to) "adoption node %q is not the handoff target %q"

unfoldable pub validate_database_backup : Goal → World → Action → Result (Unit {0})
validate_database_backup g w a = do
  ref ← or_fail a.volume no_volume
  refuse (a.snapshot == "") "database backup requires a backup label"
  refuse (g.workload.engine == "") "database backup is only for database workloads"
  v ← or_fail (Map.get w.volumes ref.name) unknown_volume
  refuse (v.owner == "") "database volume %q must be attached to back it up"

unfoldable pub validate_verify_backup : Goal → World → Action → Result (Unit {0})
validate_verify_backup g w a = do
  ref ← or_fail a.volume no_volume
  refuse (a.snapshot == "") "verify backup requires a snapshot id"
  v ← or_fail (Map.get w.volumes ref.name) unknown_volume
  require (has v.snapshots a.snapshot) "snapshot %q of volume %q was never recorded"

unfoldable pub validate_prune_snapshots : Goal → World → Action → Result (Unit {0})
validate_prune_snapshots g w a = do
  ref ← or_fail a.volume no_volume
  v ← or_fail (Map.get w.volumes ref.name) unknown_volume
  refuse (lt_ℤ a.retain (pos 1)) "prune must retain at least one snapshot"
  elim v.handoff [ none ↦ ok tt | some h ↦ err "volume %q is being moved and cannot be pruned" ]

unfoldable pub validate_backup_snapshot : Goal → World → Action → Result (Unit {0})
validate_backup_snapshot g w a = do
  ref ← or_fail a.volume no_volume
  refuse (a.snapshot == "") "backup snapshot requires a snapshot id"
  v ← or_fail (Map.get w.volumes ref.name) unknown_volume
  require (has v.snapshots a.snapshot) "snapshot %q of volume %q was never recorded"

unfoldable pub validate_restore_snapshot : Time → Goal → World → Action → Result (Unit {0})
validate_restore_snapshot clock g w a = do
  ref ← or_fail a.volume no_volume
  refuse (a.snapshot == "") "restore snapshot requires a snapshot id"
  v ← or_fail (Map.get w.volumes ref.name) unknown_volume
  require (has v.snapshots a.snapshot) "snapshot %q of volume %q was never recorded"
  require (v.owner == "") "volume %q must be detached before restore; it is attached to %q"
  require (has_approval clock w g.id "restore-volume")
      "restoring volume %q requires restore-volume approval"
