-- ===== src/Kernel/Refines.antt =====
-- control/executor.go: the simulation of validated actions against the effects of
-- Projection/Effect.antt.
use a4s.Prelude.{
  ◌≡◌, refl, sym, ◌∙◌, ap, subst, inl, inr, Bool, true, false, not, ◌&&◌, some, none, String, ◌==◌,
  eq_iff, Bool-cases, Option-cases, Result, ok, err, Ensures, done, failed, Ensures-ok,
  require-Ensures, refuse-Ensures, or_fail-Ensures, is_some-false→none, arith, ◌>>=◌,
  some-injective, incr_uint64,
}
use a4s.Prelude.Map
use a4s.Types.Goal.{Goal, VolumeRef}
use a4s.Types.World.{
  World, Volume, VolumeHandoff, Allocation, Node, Time, snapshotted, transferred, handoff_is,
}
use a4s.Types.Action.{Action, ActionKind}
use a4s.Projection.Volumes.{hold_volume, put_volume, has}
use a4s.Projection.Allocations.{put_allocation}
use a4s.Projection.Effect.{
  Effect, elsewhere, creates, updates, removes, adds, alters, attaches, VolumeStep, stays, moves,
  begin, transfer, AllocationStep, keep_or,
}
use a4s.Projection.Effect.Volumes.{release_volume-Effect, drop_snapshots-step, same_volume}
use a4s.Projection.Snapshots.{prunable_snapshots}
use a4s.Kernel.Storage.{
  validate_attach_volume, validate_quiesce_volume, validate_transfer_volume, validate_adopt_volume,
}
use a4s.Kernel.Workload.{validate_create_allocation}
use a4s.Kernel.Authorize.{validate_kind}
use a4s.Kernel.Simulate.{
  with_volume, with_snapshot, with_allocation, with_node, simulate_kind, simulate_create_allocation,
  simulate_create_volume, simulate_attach_volume, simulate_mount_secret, simulate_delete_allocation,
  simulate_quiesce, simulate_transfer, simulate_adopt, simulate_prune, simulate_backup_database,
  free_node,
}

always {ℓ κ} : {A : Type ℓ} {P : Type κ} (r : Result A) → P → Ensures (λ _. P) r
always (ok a) p = done p
always (err e) p = failed

simulate_transfer-some :
    (v : Volume) (h : VolumeHandoff)
    → v.handoff ≡ some h
    → simulate_transfer v ≡ record v { handoff = some (record h { phase = transferred }) }
unfolding simulate_transfer
simulate_transfer-some v h is = rw (is, simulate_transfer) refl

simulate_adopt-some :
    (v : Volume) (h : VolumeHandoff)
    → v.handoff ≡ some h
    → simulate_adopt v
      ≡ record v { node = h.to; generation = incr_uint64 v.generation; handoff = none }
unfolding simulate_adopt
simulate_adopt-some v h is = rw (is, simulate_adopt) refl

module _ (w : World) (a : Action) where
  -- The volume that an action names exists and is as a validator wants it.
  record Checked (P : Volume → Type 0) : Type 0 where
    ref : VolumeRef
    volume : Volume
    named : a.volume ≡ some ref
    known : Map.get w.volumes ref.name ≡ some volume
    fact : P volume

  with_volume-Effect :
      (f : String → Volume → World)
      → ((name : String) (v : Volume) → Map.get w.volumes name ≡ some v → Effect w (f name v))
      → Ensures (Effect w) (with_volume w a f)
  unfolding with_volume
  with_volume-Effect f h = or_fail-Ensures _ _ _ λ ref named.
      elim (Option-cases (Map.get w.volumes ref.name)) [
        | inl gone ↦ rw gone (done (elsewhere refl refl))
        | inr (v, known) ↦ rw known (done (h ref.name v known))
      ]

  with_snapshot-Effect :
      (f : String → Volume → World)
      → ((name : String) (v : Volume) → Map.get w.volumes name ≡ some v → Effect w (f name v))
      → Ensures (Effect w) (with_snapshot w a f)
  unfolding with_snapshot
  with_snapshot-Effect f h = refuse-Ensures _ _ _ λ _. with_volume-Effect f h

  with_volume-Checked :
      {P : Volume → Type 0} (f : String → Volume → World)
      → Checked P
      → ((name : String) (v : Volume) → Map.get w.volumes name ≡ some v → P v → Effect w (f name v))
      → Ensures (Effect w) (with_volume w a f)
  unfolding with_volume ◌>>=◌
  with_volume-Checked f c h = rw (c.named, c.known) (done (h c.ref.name c.volume c.known c.fact))

  with_allocation-Effect :
      (f : Allocation → Allocation)
      → ((x : Allocation) → AllocationStep x (f x))
      → Ensures (Effect w) (with_allocation w a (λ x. put_allocation w a.target (f x)))
  unfolding with_allocation
  with_allocation-Effect f h =
      or_fail-Ensures _ _ _ λ x held. done (updates a.target x (f x) held (h x) refl refl)

  with_node-Effect : (id : String) (f : Node → Node) → Ensures (Effect w) (with_node w id f)
  unfolding with_node
  with_node-Effect id f = or_fail-Ensures _ _ _ λ n _. done (elsewhere refl refl)

  alter :
      (name : String) (v u : Volume)
      → Map.get w.volumes name ≡ some v
      → VolumeStep v u
      → Effect w (put_volume w name u)
  alter name v u held step = alters name v u held step refl refl

  quiesce-owner :
      (clock : Time) (g : Goal)
      → Ensures (λ _. Checked (λ v. v.owner ≡ "")) (validate_quiesce_volume clock g w a)
  unfolding validate_quiesce_volume
  quiesce-owner clock g = or_fail-Ensures _ _ _ λ ref named. or_fail-Ensures _ _ _ λ v known.
      require-Ensures _ _ _ λ free. always _ (record {
        ref = ref;
        volume = v;
        named = named;
        known = known;
        fact = (eq_iff v.owner "").0 free;
      })

  abbrev InPhase : (VolumeHandoff → Bool) → Volume → Type 0
  InPhase p v = (h : VolumeHandoff) × (v.handoff ≡ some h) × (p h ≡ true)

  transfer-phase :
      (g : Goal)
      → Ensures
          (λ _. Checked (InPhase (λ h. handoff_is h.phase snapshotted)))
          (validate_transfer_volume g w a)
  unfolding validate_transfer_volume
  transfer-phase g = or_fail-Ensures _ _ _ λ ref named. or_fail-Ensures _ _ _ λ v known.
      or_fail-Ensures _ _ _ λ h is. require-Ensures _ _ _ λ phase.
        always _
          (record { ref = ref; volume = v; named = named; known = known; fact = (h, is, phase) })

  adopt-phase :
      (g : Goal)
      → Ensures
          (λ _. Checked (InPhase (λ h. handoff_is h.phase transferred)))
          (validate_adopt_volume g w a)
  unfolding validate_adopt_volume
  adopt-phase g = or_fail-Ensures _ _ _ λ ref named. or_fail-Ensures _ _ _ λ v known.
      or_fail-Ensures _ _ _ λ h is. require-Ensures _ _ _ λ phase.
        always _
          (record { ref = ref; volume = v; named = named; known = known; fact = (h, is, phase) })

  attach-free :
      (g : Goal)
      → Ensures
          (λ _. Checked (λ v. (not (v.owner == "") && not (v.owner == a.target)) ≡ false))
          (validate_attach_volume g w a)
  unfolding validate_attach_volume
  attach-free g = or_fail-Ensures _ _ _ λ ref named. or_fail-Ensures _ _ _ λ x held.
      require-Ensures _ _ _ λ _. or_fail-Ensures _ _ _ λ v known. require-Ensures _ _ _ λ _.
        refuse-Ensures _ _ _ λ free.
          always _ (record { ref = ref; volume = v; named = named; known = known; fact = free })

  create-new :
      (clock : Time) (g : Goal)
      → Ensures
          (λ _. Map.get w.allocations a.target ≡ none)
          (validate_create_allocation clock g w a)
  unfolding validate_create_allocation
  create-new clock g = refuse-Ensures _ _ _ λ new. always _ (is_some-false→none _ new)

  transfer-step :
      (v : Volume)
      → InPhase (λ h. handoff_is h.phase snapshotted) v
      → VolumeStep v (simulate_transfer v)
  transfer-step v (h, is, phase) =
      subst (VolumeStep v) (sym (simulate_transfer-some v h is))
        (stays refl refl refl (transfer h _ is (ground arith) refl refl refl))

  adopt-step :
      (v : Volume)
      → InPhase (λ h. handoff_is h.phase transferred) v
      → VolumeStep v (simulate_adopt v)
  adopt-step v (h, is, phase) =
      subst (VolumeStep v) (sym (simulate_adopt-some v h is))
        (moves h is (ground arith) refl refl refl refl)

  create_allocation-Effect :
      Map.get w.allocations a.target ≡ none → Ensures (Effect w) (simulate_create_allocation w a)
  unfolding simulate_create_allocation
  create_allocation-Effect new =
      or_fail-Ensures _ _ _ λ n _. done (creates a.target _ new refl (λ e. cc) refl refl)

  create_volume-Effect : Ensures (Effect w) (simulate_create_volume w a)
  unfolding simulate_create_volume
  create_volume-Effect = or_fail-Ensures _ _ _ λ ref _. done (
      keep_or w (has w.volumes ref.name) _
        (λ new. adds ref.name _ (is_some-false→none _ new) refl refl refl refl))

  attach_volume-Effect :
      Checked (λ v. (not (v.owner == "") && not (v.owner == a.target)) ≡ false)
      → Ensures (Effect w) (simulate_attach_volume w a)
  unfolding simulate_attach_volume hold_volume
  attach_volume-Effect c = or_fail-Ensures _ _ _ λ ref named. or_fail-Ensures _ _ _ λ v known.
      or_fail-Ensures _ _ _ λ x held.
        let same = some-injective (sym c.named ∙ named) in
        let is = some-injective (sym c.known ∙ ap (λ r. Map.get w.volumes r.name) same ∙ known) in
        let free =
          subst (λ y. (not (y.owner == "") && not (y.owner == a.target)) ≡ false) is c.fact in
        done (
          attaches ref.name a.target v x known held
            (λ q. ground (arith, eq_iff v.owner "", eq_iff v.owner a.target)) refl refl)

  mount_secret-Effect : Ensures (Effect w) (simulate_mount_secret w a)
  unfolding simulate_mount_secret
  mount_secret-Effect = or_fail-Ensures _ _ _ λ x held.
      or_fail-Ensures _ _ _ λ _ _. done (updates a.target x _ held (ground arith) refl refl)

  delete_allocation-Effect : Ensures (Effect w) (simulate_delete_allocation w a)
  unfolding simulate_delete_allocation with_allocation free_node
  delete_allocation-Effect = or_fail-Ensures _ _ _ λ x held.
      elim (Option-cases (Map.get w.nodes x.node)) [
        | inl gone ↦ rw (gone, free_node) (done (removes a.target refl refl))
        | inr (n, known) ↦ rw (known, free_node) (done (removes a.target refl refl))
      ]

  prune-step : (v : Volume) → VolumeStep v (simulate_prune a v)
  unfolding simulate_prune
  prune-step v = elim (Bool-cases a.dry_run) [
    | inl dry ↦ rw dry (same_volume v v refl refl refl refl)
    | inr real ↦ rw real (drop_snapshots-step v (prunable_snapshots v a.retain))
  ]

  simulate_kind-Effect :
      (clock : Time) (k : ActionKind) (g : Goal)
      → validate_kind clock k g w a ≡ ok tt
      → Ensures (Effect w) (simulate_kind k w a)
  unfolding validate_kind simulate_kind simulate_backup_database simulate_quiesce
  simulate_kind-Effect clock ActionKind.pull_image g h = with_node-Effect a.node _
  simulate_kind-Effect clock ActionKind.create_allocation g h =
      create_allocation-Effect (Ensures-ok (create-new clock g) h)
  simulate_kind-Effect clock ActionKind.create_volume g h = create_volume-Effect
  simulate_kind-Effect clock ActionKind.attach_volume g h =
      attach_volume-Effect (Ensures-ok (attach-free g) h)
  simulate_kind-Effect clock ActionKind.cordon_node g h = with_node-Effect a.target _
  simulate_kind-Effect clock ActionKind.uncordon_node g h = with_node-Effect a.target _
  simulate_kind-Effect clock ActionKind.detach_volume g h =
      with_volume-Effect _ (release_volume-Effect w)
  simulate_kind-Effect clock ActionKind.snapshot_volume g h =
      with_volume-Effect _ λ name v held. alter name v _ held (same_volume v _ refl refl refl refl)
  simulate_kind-Effect clock ActionKind.quiesce_volume g h =
      with_volume-Checked _ (Ensures-ok (quiesce-owner clock g) h)
        λ name v held free. alter name v _ held (stays refl refl refl (begin _ free refl refl))
  simulate_kind-Effect clock ActionKind.transfer_volume g h =
      with_volume-Checked _ (Ensures-ok (transfer-phase g) h)
        λ name v held phase. alter name v _ held (transfer-step v phase)
  simulate_kind-Effect clock ActionKind.adopt_volume g h =
      with_volume-Checked _ (Ensures-ok (adopt-phase g) h)
        λ name v held phase. alter name v _ held (adopt-step v phase)
  simulate_kind-Effect clock ActionKind.database_backup g h =
      with_snapshot-Effect _
        λ name v held. alter name v _ held (same_volume v _ refl refl refl refl)
  simulate_kind-Effect clock ActionKind.verify_backup g h =
      with_snapshot-Effect _ λ _ _ _. elsewhere refl refl
  simulate_kind-Effect clock ActionKind.apply_policy g h = done (elsewhere refl refl)
  simulate_kind-Effect clock ActionKind.publish_zone g h = done (elsewhere refl refl)
  simulate_kind-Effect clock ActionKind.collect_images g h = done (elsewhere refl refl)
  simulate_kind-Effect clock ActionKind.prune_snapshots g h =
      with_volume-Effect _ λ name v held. alter name v _ held (prune-step v)
  simulate_kind-Effect clock ActionKind.backup_snapshot g h =
      with_snapshot-Effect _
        λ name v held. alter name v _ held (same_volume v _ refl refl refl refl)
  simulate_kind-Effect clock ActionKind.restore_snapshot g h =
      with_snapshot-Effect _
        λ name v held. alter name v _ held (same_volume v _ refl refl refl refl)
  simulate_kind-Effect clock ActionKind.mount_secret g h = mount_secret-Effect
  simulate_kind-Effect clock ActionKind.attach_network g h =
      with_allocation-Effect _ λ x. ground arith
  simulate_kind-Effect clock ActionKind.start_allocation g h =
      with_allocation-Effect _ λ x. ground arith
  simulate_kind-Effect clock ActionKind.stop_allocation g h =
      with_allocation-Effect _ λ x. ground arith
  simulate_kind-Effect clock ActionKind.delete_allocation g h = delete_allocation-Effect
  simulate_kind-Effect clock ActionKind.grant_tools g h = with_allocation-Effect _ λ x. ground arith
  simulate_kind-Effect clock ActionKind.drain_allocation g h =
      with_allocation-Effect _ λ x. ground arith
  simulate_kind-Effect clock ActionKind.publish_route g h = done (elsewhere refl refl)
  simulate_kind-Effect clock ActionKind.probe_readiness g h = failed
  simulate_kind-Effect clock (ActionKind.other _) g h = failed

-- The simulation of a validated action does to the allocations and the volumes of the world just
-- one of the things that evidence may do.
pub simulate-Effect :
    (clock : Time) (g : Goal) (w u : World) (a : Action)
    → validate_kind clock a.kind g w a ≡ ok tt
    → simulate_kind a.kind w a ≡ ok u
    → Effect w u
simulate-Effect clock g w u a valid sim =
    Ensures-ok (simulate_kind-Effect w a clock a.kind g valid) sim
