-- ===== src/Examples/Logs.antt =====
-- The theorems on the projection, applied to a log that attaches a volume and one that adopts it.
use a4s.Prelude.{
  ◌≡◌, ◌≢◌, refl, ◌≤◌, ◌<◌, true, false, List, [], ◌∷◌, none, some, String, pos, ok, Result, ◌>>=◌,
  arith, eq_iff, uint64_mod, incr_uint64,
}
use a4s.Prelude.Map
use a4s.Prelude.Map.{Map}
use a4s.Types.World.{World, Volume, VolumeHandoff, transferred}
use a4s.Types.Evidence.{Evidence, EvidenceKind}
use a4s.Disruption.{backoff_for, base_backoff, max_backoff}
use a4s.Disruption.Delays.{backoff_for-bounds}
use a4s.Projection.{project, replay, observes_nothing, project_kind}
use a4s.Projection.Volumes.{new_volume, volume_created, volume_attached, volume_adopted}
use a4s.Projection.Allocations.{allocation_created}
use a4s.Projection.Snapshots.{prunable_snapshots, drop_snapshots}
use a4s.Projection.Effect.{Effect}
use a4s.Projection.Refines.{project-Effect}
use a4s.Projection.Fencing.{held}
use a4s.Projection.Replay.{count_evidence}
use a4s.Projection.Guarantees.{Fresh, replay-Holds, replay-single_writer}
use a4s.Projection.Moves.{project-adopts, replay-++}
use a4s.Projection.Retention.{Needed, prune-protected}
use a4s.Examples.Cluster.{empty_world}

abbrev observed : EvidenceKind → String → List (String × String) → Evidence
observed kind target entries = record {
  kind = kind;
  target = target;
  source = "node";
  observed_at = 20;
  expires_at = 0;
  observed = record { entries = entries };
}

abbrev volume_made : Evidence
volume_made = observed EvidenceKind.volume_created "data" (("node", "n1") ∷ [])

abbrev allocation_made : Evidence
allocation_made =
    observed EvidenceKind.allocation_created "web-0"
      (("node", "n1") ∷ ("workload", "web") ∷ ("cpu_millis", "100") ∷ ("memory_mb", "64") ∷ [])

abbrev volume_taken : Evidence
volume_taken = observed EvidenceKind.volume_attached "data" (("allocation", "web-0") ∷ [])

abbrev attach_log : List Evidence
attach_log = volume_made ∷ allocation_made ∷ volume_taken ∷ []

abbrev or_else : Result World → World
or_else (ok w) = w
or_else _ = empty_world

abbrev attached : World
attached = or_else (replay empty_world attach_log)

abbrev attached_volume : Volume
attached_volume = record (new_volume "data" "n1" (pos 0)) { owner = "web-0"; generation = 1 }

attach_log-accepted : replay empty_world attach_log ≡ ok attached
unfolding replay ◌>>=◌ project project_kind volume_created Map.get a4s.Types.Evidence.seen
    allocation_created observes_nothing Map.empty a4s.Projection.Allocations.observed_resources
    a4s.Types.Evidence.observed_int a4s.Types.Evidence.scan_int volume_attached Map.put
attach_log-accepted = refl

attached-known : Map.get attached.volumes "data" ≡ some attached_volume
unfolding Map.get replay ◌>>=◌ project project_kind volume_created a4s.Types.Evidence.seen
    allocation_created observes_nothing Map.empty a4s.Projection.Allocations.observed_resources
    a4s.Types.Evidence.observed_int a4s.Types.Evidence.scan_int volume_attached Map.put
attached-known = refl

attached-held : held attached "web-0" "data" ≡ some 1
unfolding Map.get replay ◌>>=◌ project project_kind volume_created a4s.Types.Evidence.seen
    allocation_created observes_nothing Map.empty a4s.Projection.Allocations.observed_resources
    a4s.Types.Evidence.observed_int a4s.Types.Evidence.scan_int volume_attached Map.put
attached-held = refl

empty_world-Fresh : Fresh empty_world
empty_world-Fresh = record { no_allocations = refl; no_volumes = refl }

log_small : count_evidence attach_log < uint64_mod
log_small = ground arith

replay-Holds_example :
    (v : Volume) × (Map.get attached.volumes "data" ≡ some v)
    × (1 ≤ v.generation)
    × (1 ≡ v.generation → v.owner ≡ "web-0")
replay-Holds_example =
    replay-Holds attach_log empty_world attached empty_world-Fresh log_small attach_log-accepted
      "web-0" "data" 1 attached-held

abbrev writer : String
writer = "web-0"

replay-single_writer_example : writer ≡ writer
replay-single_writer_example =
    replay-single_writer attach_log empty_world attached empty_world-Fresh log_small
      attach_log-accepted writer writer "data" attached_volume attached-known attached-held
      attached-held

abbrev made : World
made = or_else (project empty_world volume_made)

volume_made-accepted : project empty_world volume_made ≡ ok made
unfolding project ◌>>=◌ project_kind volume_created Map.get a4s.Types.Evidence.seen
volume_made-accepted = refl

project-Effect_example : Effect empty_world made
project-Effect_example = project-Effect empty_world volume_made volume_made-accepted

replay-++_example : replay empty_world attach_log ≡ (
    replay empty_world (volume_made ∷ []) >>= λ u. replay u (allocation_made ∷ volume_taken ∷ []))
replay-++_example = replay-++ (volume_made ∷ []) (allocation_made ∷ volume_taken ∷ []) empty_world

abbrev moving_handoff : VolumeHandoff
moving_handoff = record {
  from = "n1";
  to = "n2";
  phase = transferred;
  snapshot = "s1";
  checksum = "c1";
}

abbrev moving_volume : Volume
moving_volume = record (new_volume "data" "n1" (pos 0)) {
  generation = 2;
  handoff = some moving_handoff;
  snapshots = record { entries = ("s1", "c1") ∷ ("s2", "c2") ∷ [] };
  snapshot_order = "s1" ∷ "s2" ∷ [];
  last_snapshot = "s2";
}

abbrev moved_volume : Volume
moved_volume = record moving_volume { node = "n2"; generation = 3; handoff = none }

abbrev moving : World
moving = record empty_world { volumes = record { entries = ("data", moving_volume) ∷ [] } }

abbrev adoption : Evidence
adoption = observed EvidenceKind.volume_adopted "data" (("node", "n2") ∷ [])

abbrev moved : World
moved = or_else (project moving adoption)

adoption-accepted : project moving adoption ≡ ok moved
unfolding project ◌>>=◌ project_kind volume_adopted Map.get a4s.Types.Evidence.seen
adoption-accepted = refl

moving-known : Map.get moving.volumes "data" ≡ some moving_volume
unfolding Map.get
moving-known = refl

moved-known : Map.get moved.volumes "data" ≡ some moved_volume
unfolding Map.get project ◌>>=◌ project_kind volume_adopted a4s.Types.Evidence.seen observes_nothing
    Map.put
moved-known = refl

differ : false ≢ true
differ e = cc

other_node : moved_volume.node ≢ moving_volume.node
other_node e = absurd (differ ((eq_iff "n2" "n1").1 e))

project-adopts_example :
    (h : VolumeHandoff) × (some moving_handoff ≡ some h)
    × (h.phase ≡ transferred)
    × (moved_volume.node ≡ h.to)
    × (3 ≡ incr_uint64 2)
project-adopts_example =
    project-adopts moving moved adoption "data" moving_volume moved_volume adoption-accepted
      moving-known moved-known other_node

prune-protected_example :
    (Map.get
        (drop_snapshots moving_volume (prunable_snapshots moving_volume (pos 1))).snapshots
        "s2"
      ≡ Map.get moving_volume.snapshots "s2")
    × (Map.get
          (drop_snapshots moving_volume (prunable_snapshots moving_volume (pos 1))).backups
          "s2"
        ≡ Map.get moving_volume.backups "s2")
prune-protected_example =
    prune-protected moving_volume (pos 1) "s2"
      (Needed.recent ("s1" ∷ []) [] 1 refl refl (ground arith))

backoff_for-bounds_example :
    (base_backoff ≤ backoff_for (pos 3)) × (backoff_for (pos 3) ≤ max_backoff)
backoff_for-bounds_example = backoff_for-bounds (pos 3)
