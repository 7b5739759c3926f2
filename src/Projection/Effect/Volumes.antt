-- ===== src/Projection/Effect/Volumes.antt =====
-- control/projection.go: the effects of the cases on volumes.
use a4s.Prelude.{
  ◌≡◌, refl, sym, inl, inr, arith, done, Ensures, Bool-cases, Option-cases, Option, true, none,
  some, String, require-Ensures, refuse-Ensures, or_fail-Ensures, bind-Ensures, if-Ensures,
  Ensures-ok, is_some, is_some-false→none, not, ◌&&◌, ◌==◌, List, [], ◌∷◌, eq_iff,
}
use a4s.Prelude.Map
use a4s.Types.World.{World, Volume, VolumeHandoff, quiesced, handoff_is}
use a4s.Types.Evidence.{Evidence, seen}
use a4s.Projection.Volumes.{
  volume_created, volume_attached, volume_detached, volume_snapshotted, volume_backed_up,
  volume_quiesced, volume_transferred, volume_adopted, store_snapshot, snapshot_handoff, put_volume,
  hold_volume, release_volume, drop_hold,
}
use a4s.Projection.Snapshots.{
  snapshots_pruned, database_backed_up, backup_verified, volume_restored, drop_snapshots,
  settle_last, split_lines,
}
use a4s.Projection.Effect.{
  Effect, elsewhere, adds, alters, attaches, detaches, VolumeStep, stays, moves, HandoffStep, keep,
  begin, snapshot, transfer, keep_or,
}

pub same_volume :
    (v u : Volume)
    → u.node ≡ v.node
    → u.owner ≡ v.owner
    → u.generation ≡ v.generation
    → u.handoff ≡ v.handoff
    → VolumeStep v u
same_volume v u n o g h = stays n o g (keep h)

handoff_phase : (h : VolumeHandoff) → handoff_is h.phase quiesced ≡ true → h.phase ≡ quiesced
handoff_phase h e = ground arith

snapshot_handoff-step :
    (v : Volume) (o : Option VolumeHandoff) (id checksum : String)
    → v.handoff ≡ o
    → HandoffStep v (snapshot_handoff o id checksum)
unfolding snapshot_handoff
snapshot_handoff-step v none id checksum e = keep (sym e)
snapshot_handoff-step v (some h) id checksum e = elim (Bool-cases (handoff_is h.phase quiesced)) [
  | inl yes' ↦ rw yes' (snapshot h _ e (handoff_phase h yes') refl refl)
  | inr no' ↦ rw no' (keep (sym e))
]

store_snapshot-step :
    (v : Volume) (id checksum : String) → Ensures (VolumeStep v) (store_snapshot v id checksum)
unfolding store_snapshot
store_snapshot-step v id checksum = elim (Option-cases (Map.get v.snapshots id)) [
  | inl new ↦
      rw (new, store_snapshot)
        (done (stays refl refl refl (snapshot_handoff-step v v.handoff id checksum refl)))
  | inr (old, held) ↦
      rw (held, store_snapshot)
        (if-Ensures (old == checksum) _ _
          (λ _. done (stays refl refl refl (snapshot_handoff-step v v.handoff id checksum refl)))
          (λ _. Ensures.failed))
]

abbrev SameHolder : Volume → Volume → Type 0
SameHolder v u =
    (u.node ≡ v.node)
    × (u.owner ≡ v.owner)
    × (u.generation ≡ v.generation)
    × (u.handoff ≡ v.handoff)

drop_snapshots-SameHolder : (ids : List String) (v : Volume) → SameHolder v (drop_snapshots v ids)
unfolding drop_snapshots
drop_snapshots-SameHolder [] v = (refl, refl, refl, refl)
drop_snapshots-SameHolder (id ∷ ids) v = drop_snapshots-SameHolder ids _

settle_last-SameHolder : (v u : Volume) → SameHolder v u → SameHolder v (settle_last u)
unfolding settle_last
settle_last-SameHolder v u h = ground arith

pub drop_snapshots-step : (v : Volume) (ids : List String) → VolumeStep v (drop_snapshots v ids)
drop_snapshots-step v ids =
    let (n, o, g, h) = drop_snapshots-SameHolder ids v in same_volume v _ n o g h

prune-step : (v : Volume) (ids : List String) → VolumeStep v (settle_last (drop_snapshots v ids))
prune-step v ids =
    let (n, o, g, h) = settle_last-SameHolder v _ (drop_snapshots-SameHolder ids v) in
    same_volume v _ n o g h

pub release_volume-Effect :
    (w : World) (name : String) (v : Volume)
    → Map.get w.volumes name ≡ some v
    → Effect w (release_volume w name v)
unfolding release_volume drop_hold
release_volume-Effect w name v known =
    detaches name v known refl (elim (Option-cases (Map.get w.allocations v.owner)) [
      | inl gone ↦ rw (gone, drop_hold) refl
      | inr (a, h) ↦ rw (h, drop_hold) refl
    ])

module _ (w : World) (e : Evidence) where
  unchanged : Effect w w
  unchanged = elsewhere refl refl

  alter :
      (v u : Volume)
      → Map.get w.volumes e.target ≡ some v
      → VolumeStep v u
      → Effect w (put_volume w e.target u)
  alter v u held step = alters e.target v u held step refl refl

  pub volume_created-Effect : Ensures (Effect w) (volume_created w e)
  unfolding volume_created
  volume_created-Effect = refuse-Ensures _ _ _ λ _. require-Ensures _ _ _ λ _. done (
      keep_or w (is_some (Map.get w.volumes e.target)) _
        (λ new. adds e.target _ (is_some-false→none _ new) refl refl refl refl))

  pub volume_attached-Effect : Ensures (Effect w) (volume_attached w e)
  unfolding volume_attached hold_volume
  volume_attached-Effect = or_fail-Ensures _ _ _ λ v known. refuse-Ensures _ _ _ λ named.
      or_fail-Ensures _ _ _ λ a held. refuse-Ensures _ _ _ λ free. done (
        attaches e.target (seen e "allocation") v a known held
          (λ q. ground (arith, eq_iff v.owner "", eq_iff v.owner (seen e "allocation"))) refl refl)

  pub volume_detached-Effect : Ensures (Effect w) (volume_detached w e)
  unfolding volume_detached
  volume_detached-Effect = elim (Option-cases (Map.get w.volumes e.target)) [
    | inl gone ↦ rw (gone, volume_detached) (done unchanged)
    | inr (v, held) ↦
        rw (held, volume_detached)
          (done (
            keep_or w
              (not (v.owner == "")
                && not (seen e "allocation" == "")
                && not (v.owner == seen e "allocation"))
              _ (λ _. release_volume-Effect w e.target v held)))
  ]

  pub volume_snapshotted-Effect : Ensures (Effect w) (volume_snapshotted w e)
  unfolding volume_snapshotted
  volume_snapshotted-Effect = or_fail-Ensures _ _ _ λ v held. refuse-Ensures _ _ _ λ _.
      bind-Ensures _ _
        λ u stored. done (alter v u held (Ensures-ok (store_snapshot-step v _ _) stored))

  pub volume_backed_up-Effect : Ensures (Effect w) (volume_backed_up w e)
  unfolding volume_backed_up
  volume_backed_up-Effect = or_fail-Ensures _ _ _ λ v held. refuse-Ensures _ _ _ λ _.
      or_fail-Ensures _ _ _ λ recorded _.
        refuse-Ensures _ _ _ λ _. done (alter v _ held (same_volume v _ refl refl refl refl))

  pub volume_quiesced-Effect : Ensures (Effect w) (volume_quiesced w e)
  unfolding volume_quiesced
  volume_quiesced-Effect = or_fail-Ensures _ _ _ λ v held. refuse-Ensures _ _ _ λ _.
      require-Ensures _ _ _ λ _. require-Ensures _ _ _ λ free.
        done
          (alter v _ held (stays refl refl refl (begin _ ((eq_iff v.owner "").0 free) refl refl)))

  pub volume_transferred-Effect : Ensures (Effect w) (volume_transferred w e)
  unfolding volume_transferred
  volume_transferred-Effect = or_fail-Ensures _ _ _ λ v held. or_fail-Ensures _ _ _ λ h moving.
      require-Ensures _ _ _ λ ready. refuse-Ensures _ _ _ λ _. require-Ensures _ _ _ λ _.
        done (
          alter v _ held (stays refl refl refl (transfer h _ moving (ground arith) refl refl refl)))

  pub volume_adopted-Effect : Ensures (Effect w) (volume_adopted w e)
  unfolding volume_adopted
  volume_adopted-Effect = or_fail-Ensures _ _ _ λ v held. or_fail-Ensures _ _ _ λ h moving.
      require-Ensures _ _ _ λ sent.
        require-Ensures _ _ _
          λ _. done (alter v _ held (moves h moving (ground arith) refl refl refl refl))

  pub snapshots_pruned-Effect : Ensures (Effect w) (snapshots_pruned w e)
  unfolding snapshots_pruned
  snapshots_pruned-Effect =
      or_fail-Ensures _ _ _
        λ v held. done (alter v _ held (prune-step v (split_lines (seen e "removed"))))

  pub database_backed_up-Effect : Ensures (Effect w) (database_backed_up w e)
  unfolding database_backed_up
  database_backed_up-Effect = or_fail-Ensures _ _ _ λ v held.
      refuse-Ensures _ _ _ λ _. done (alter v _ held (same_volume v _ refl refl refl refl))

  pub backup_verified-Effect : Ensures (Effect w) (backup_verified w e)
  unfolding backup_verified
  backup_verified-Effect = or_fail-Ensures _ _ _ λ v held. refuse-Ensures _ _ _ λ _.
      if-Ensures (not (seen e "verified" == "true")) _ _ (λ _. done unchanged)
        λ _. require-Ensures _ _ _ λ _. done (alter v _ held (same_volume v _ refl refl refl refl))

  pub volume_restored-Effect : Ensures (Effect w) (volume_restored w e)
  unfolding volume_restored
  volume_restored-Effect = or_fail-Ensures _ _ _ λ v held.
      refuse-Ensures _ _ _
        λ _. require-Ensures _ _ _ λ _. done (alter v _ held (same_volume v _ refl refl refl refl))
