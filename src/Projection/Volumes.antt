-- ===== src/Projection/Volumes.antt =====
-- control/projection.go, the cases of `projectInto` that attach, detach, copy and move volumes.
use a4s.Prelude.{
  Bool, ◌&&◌, ◌||◌, not, Option, none, some, List, [], ◌∷◌, ◌++◌, String, ◌==◌, ℤ, if◌then◌else◌,
  Result, ok, err, ◌>>=◌, ◌>>◌, require, refuse, or_fail, is_some, incr_uint64,
}
use a4s.Prelude.Map
use a4s.Prelude.Map.{Map}
use a4s.Types.World.{
  World, Volume, VolumeHandoff, Allocation, quiesced, snapshotted, transferred, handoff_is,
}
use a4s.Types.Evidence.{Evidence, seen, observed_int}

-- `_, found := m[key]`
abbrev pub has {ℓ} : {V : Type ℓ} → Map V → String → Bool
has m k = is_some (Map.get m k)

abbrev pub put_volume : World → String → Volume → World
put_volume w name v = record w { volumes = Map.put w.volumes name v }

-- `&Volume{Name: name, Node: node, SizeMB: size}`
abbrev pub new_volume : String → String → ℤ → Volume
new_volume name node size = record {
  name = name;
  node = node;
  owner = "";
  generation = 0;
  size_mb = size;
  last_snapshot = "";
  snapshots = Map.empty;
  snapshot_order = [];
  restored_from = "";
  verified_at = 0;
  verified_snapshot = "";
  handoff = none;
  backups = Map.empty;
}

unfoldable pub volume_created : World → Evidence → Result World
volume_created w e = do
  refuse (e.target == "") "evidence %q must name a volume"
  require (has w.nodes (seen e "node")) "evidence %q names unknown node %q"
  ok (
      if has w.volumes e.target
      then w
      else put_volume w e.target (new_volume e.target (seen e "node") (observed_int e "size_mb")))

-- Taking a volume for `owner` advances its generation; a repeat by the holder does not.
unfoldable pub take_volume : Volume → String → Volume
take_volume v owner =
    if v.owner == owner
    then v
    else record v { owner = owner; generation = incr_uint64 v.generation }

-- The allocation records the generation that it holds.
unfoldable pub hold_volume : World → String → Volume → String → Allocation → World
hold_volume w name v owner a = record w {
  volumes = Map.put w.volumes name v;
  allocations =
      Map.put w.allocations owner (record a { volumes = Map.put a.volumes name v.generation });
}

unfoldable pub volume_attached : World → Evidence → Result World
unfolding take_volume hold_volume
volume_attached w e = do
  v ← or_fail (Map.get w.volumes e.target) "evidence %q names unknown volume %q"
  refuse (seen e "allocation" == "") "evidence %q must observe an allocation"
  a ←
      or_fail (Map.get w.allocations (seen e "allocation"))
        "evidence %q names unknown allocation %q"
  refuse (not (v.owner == "") && not (v.owner == seen e "allocation"))
      "volume %q is owned by allocation %q"
  ok (hold_volume w e.target (take_volume v (seen e "allocation")) (seen e "allocation") a)

-- `delete(allocation.Volumes, name)` on the allocation that owns the volume, if there is one.
unfoldable pub drop_hold : World → String → String → World
drop_hold w owner name = elim (Map.get w.allocations owner) [
  | none ↦ w
  | some a ↦ record w {
    allocations = Map.put w.allocations owner (record a { volumes = Map.delete a.volumes name });
  }
]

unfoldable pub release_volume : World → String → Volume → World
unfolding drop_hold
release_volume w name v =
    put_volume (drop_hold w v.owner name) name
      (record v { owner = ""; generation = incr_uint64 v.generation })

unfoldable pub volume_detached : World → Evidence → Result World
unfolding release_volume
volume_detached w e = elim (Map.get w.volumes e.target) [
  | none ↦ ok w
  | some v ↦ ok (
      if not (v.owner == "")
        && not (seen e "allocation" == "")
        && not (v.owner == seen e "allocation")
      then w
      else release_volume w e.target v)
]

-- A snapshot that is taken during a quiesced handoff is the one that moves.
unfoldable pub snapshot_handoff : Option VolumeHandoff → String → String → Option VolumeHandoff
snapshot_handoff none id checksum = none
snapshot_handoff (some h) id checksum =
    if handoff_is h.phase quiesced
    then some (record h { phase = snapshotted; snapshot = id; checksum = checksum })
    else some h

unfoldable pub store_snapshot : Volume → String → String → Result Volume
unfolding snapshot_handoff
store_snapshot v id checksum =
    let stored : List String → Volume = λ order. record v {
      snapshots = Map.put v.snapshots id checksum;
      snapshot_order = order;
      last_snapshot = id;
      handoff = snapshot_handoff v.handoff id checksum;
    } in
    elim (Map.get v.snapshots id) [
      | none ↦ ok (stored (v.snapshot_order ++ id ∷ []))
      | some existing ↦
          if existing == checksum
          then ok (stored v.snapshot_order)
          else err "snapshot %q of volume %q already exists with a different checksum"
    ]

unfoldable pub volume_snapshotted : World → Evidence → Result World
unfolding store_snapshot
volume_snapshotted w e = do
  v ← or_fail (Map.get w.volumes e.target) "evidence %q names unknown volume %q"
  refuse (seen e "snapshot" == "" || seen e "checksum" == "")
      "evidence %q must observe a snapshot id and checksum"
  v' ← store_snapshot v (seen e "snapshot") (seen e "checksum")
  ok (put_volume w e.target v')

unfoldable pub volume_backed_up : World → Evidence → Result World
volume_backed_up w e = do
  v ← or_fail (Map.get w.volumes e.target) "evidence %q names unknown volume %q"
  refuse (seen e "snapshot" == "" || seen e "location" == "")
      "evidence %q must observe a snapshot id and location"
  recorded ←
      or_fail (Map.get v.snapshots (seen e "snapshot")) "volume %q has no snapshot %q to back up"
  refuse (not (seen e "checksum" == "") && not (seen e "checksum" == recorded))
      "backup of snapshot %q does not match its recorded checksum"
  ok (
      put_volume w e.target
        (record v { backups = Map.put v.backups (seen e "snapshot") (seen e "location") }))

unfoldable pub volume_quiesced : World → Evidence → Result World
volume_quiesced w e = do
  v ← or_fail (Map.get w.volumes e.target) "evidence %q names unknown volume %q"
  refuse (seen e "to" == "") "evidence %q must observe a target node"
  require (has w.nodes (seen e "to")) "evidence %q names unknown node %q"
  require (v.owner == "") "volume %q cannot be quiesced while allocation %q holds it"
  ok (
      put_volume w e.target (record v {
        handoff = some (record {
          from = v.node;
          to = seen e "to";
          phase = quiesced;
          snapshot = "";
          checksum = "";
        });
      }))

unfoldable pub volume_transferred : World → Evidence → Result World
volume_transferred w e = do
  v ← or_fail (Map.get w.volumes e.target) "evidence %q names unknown volume %q"
  h ← or_fail v.handoff "volume %q has no handoff in progress"
  require (handoff_is h.phase snapshotted) "volume %q must be snapshotted before transfer, not %q"
  refuse (seen e "checksum" == "") "evidence %q must observe a checksum"
  require (seen e "checksum" == h.checksum)
      "transfer of volume %q does not match the snapshot checksum"
  ok (put_volume w e.target (record v { handoff = some (record h { phase = transferred }) }))

unfoldable pub volume_adopted : World → Evidence → Result World
volume_adopted w e = do
  v ← or_fail (Map.get w.volumes e.target) "evidence %q names unknown volume %q"
  h ← or_fail v.handoff "volume %q has no handoff in progress"
  require (handoff_is h.phase transferred) "volume %q must be transferred before adoption, not %q"
  require (seen e "node" == h.to) "volume %q was adopted by %q, not the handoff target %q"
  ok (
      put_volume w e.target
        (record v { node = h.to; generation = incr_uint64 v.generation; handoff = none }))
