-- ===== src/Projection/Effect/Allocations.antt =====
-- control/projection.go: the effects of the cases on allocations.
use a4s.Prelude.{
  ◌≡◌, refl, inl, inr, arith, done, Ensures, Option-cases, String, require-Ensures, refuse-Ensures,
  or_fail-Ensures, bind-Ensures, true, false, some, ◌∙◌, if-Ensures, is_some-false→none,
}
use a4s.Prelude.Map
use a4s.Types.World.{World, Allocation, Time, running, stopped, phase_is}
use a4s.Types.Evidence.{Evidence}
use a4s.Disruption.{record_disruption, record_failure}
use a4s.Projection.Allocations.{
  put_allocation, secret_mounted, network_attached, network_detached, allocation_running,
  allocation_ready, apply_readiness, ready_allocation, allocation_stopped, allocation_failed,
  allocation_deleted, release_resources, allocation_created, tools_granted, agent_spent, spend,
  agent_draining, allocation_drained, observed_budget,
}
use a4s.Projection.Effect.{Effect, elsewhere, creates, updates, removes, AllocationStep, keep_or}

module _ (w : World) (e : Evidence) where
  unchanged : Effect w w
  unchanged = elsewhere refl refl

  update :
      (a b : Allocation)
      → Map.get w.allocations e.target ≡ some a
      → AllocationStep a b
      → Effect w (put_allocation w e.target b)
  update a b held step = updates e.target a b held step refl refl

  pub secret_mounted-Effect : Ensures (Effect w) (secret_mounted w e)
  unfolding secret_mounted
  secret_mounted-Effect =
      or_fail-Ensures _ _ _
        λ a held. refuse-Ensures _ _ _ λ _. done (update a _ held (ground arith))

  pub network_attached-Effect : Ensures (Effect w) (network_attached w e)
  unfolding network_attached
  network_attached-Effect =
      or_fail-Ensures _ _ _
        λ a held. refuse-Ensures _ _ _ λ _. done (update a _ held (ground arith))

  pub network_detached-Effect : Ensures (Effect w) (network_detached w e)
  unfolding network_detached
  network_detached-Effect = elim (Option-cases (Map.get w.allocations e.target)) [
    | inl gone ↦ rw (gone, network_detached) (done unchanged)
    | inr (a, held) ↦
        rw (held, network_detached)
          (done (update a (record a { address = "" }) held (ground arith)))
  ]

  pub allocation_running-Effect : Ensures (Effect w) (allocation_running w e)
  unfolding allocation_running
  allocation_running-Effect = or_fail-Ensures _ _ _ λ a held. done (update a _ held (ground arith))

  apply_readiness-Effect :
      (a : Allocation)
      → Map.get w.allocations e.target ≡ some a
      → phase_is a.phase running ≡ true
      → Effect w (apply_readiness w a e)
  unfolding apply_readiness ready_allocation
  apply_readiness-Effect a held runs =
      updates e.target a (ready_allocation a e) held (ground arith) (ground arith) (ground arith)

  pub allocation_ready-Effect : Ensures (Effect w) (allocation_ready w e)
  unfolding allocation_ready
  allocation_ready-Effect =
      or_fail-Ensures _ _ _
        λ a held. require-Ensures _ _ _ λ runs. done (apply_readiness-Effect a held runs)

  record_disruption-allocations :
      (a : Allocation) (kind : String) (at : Time)
      → (record_disruption w a kind at).allocations ≡ w.allocations
  unfolding record_disruption
  record_disruption-allocations a kind at = ground arith

  record_disruption-volumes :
      (a : Allocation) (kind : String) (at : Time)
      → (record_disruption w a kind at).volumes ≡ w.volumes
  unfolding record_disruption
  record_disruption-volumes a kind at = ground arith

  pub allocation_stopped-Effect : Ensures (Effect w) (allocation_stopped w e)
  unfolding allocation_stopped
  allocation_stopped-Effect = or_fail-Ensures _ _ _ λ a held. done (
      updates e.target a (record a { phase = stopped; ready = false; ready_since = 0 }) held
        (ground arith)
        (rw (record_disruption-allocations a "allocation.stopped" e.observed_at) refl)
        (record_disruption-volumes a "allocation.stopped" e.observed_at))

  pub allocation_failed-Effect : Ensures (Effect w) (allocation_failed w e)
  unfolding allocation_failed record_failure
  allocation_failed-Effect =
      or_fail-Ensures _ _ _ λ a held. done (updates e.target a _ held (ground arith) refl refl)

  pub tools_granted-Effect : Ensures (Effect w) (tools_granted w e)
  unfolding tools_granted
  tools_granted-Effect = or_fail-Ensures _ _ _ λ a held.
      require-Ensures _ _ _ λ _. bind-Ensures _ _ λ tools _. done (update a _ held (ground arith))

  pub agent_spent-Effect : Ensures (Effect w) (agent_spent w e)
  unfolding agent_spent spend
  agent_spent-Effect = or_fail-Ensures _ _ _ λ a held.
      done (keep_or w _ _ (λ _. update a (spend a (observed_budget e)) held (ground arith)))

  pub agent_draining-Effect : Ensures (Effect w) (agent_draining w e)
  unfolding agent_draining
  agent_draining-Effect = or_fail-Ensures _ _ _ λ a held. done (update a _ held (ground arith))

module _ (w : World) (e : Evidence) where
  drain : Allocation → Allocation
  drain a = record a { draining = true; task = ""; ready = false; ready_since = 0 }

  pub allocation_drained-Effect : Ensures (Effect w) (allocation_drained w e)
  unfolding allocation_drained drain
  allocation_drained-Effect = or_fail-Ensures _ _ _ λ a held.
      let u = put_allocation w e.target (drain a) in
      done (
        updates e.target a (drain a) held (ground arith)
          (record_disruption-allocations u e (drain a) "allocation.drained" e.observed_at)
          (record_disruption-volumes u e (drain a) "allocation.drained" e.observed_at))

  release_resources-allocations :
      (a : Allocation) → (release_resources w a).allocations ≡ w.allocations
  unfolding release_resources
  release_resources-allocations a = ground arith

  release_resources-volumes : (a : Allocation) → (release_resources w a).volumes ≡ w.volumes
  unfolding release_resources
  release_resources-volumes a = ground arith

  pub allocation_deleted-Effect : Ensures (Effect w) (allocation_deleted w e)
  unfolding allocation_deleted
  allocation_deleted-Effect = elim (Option-cases (Map.get w.allocations e.target)) [
    | inl gone ↦ rw (gone, allocation_deleted) (done (unchanged w e))
    | inr (a, held) ↦
        let u = release_resources w a in
        rw (held, allocation_deleted)
          (done (
            removes e.target
              (rw
                (
                  record_disruption-allocations u e a "allocation.deleted" e.observed_at,
                  release_resources-allocations a,
                )
                refl)
              (record_disruption-volumes u e a "allocation.deleted" e.observed_at
                ∙ release_resources-volumes a)))
  ]

  pub allocation_created-Effect : Ensures (Effect w) (allocation_created w e)
  unfolding allocation_created
  allocation_created-Effect = or_fail-Ensures _ _ _ λ n known. refuse-Ensures _ _ _ λ _.
      if-Ensures _ _ _ (λ held. done (unchanged w e))
        λ new.
          bind-Ensures _ _
            λ r _. done (creates e.target _ (is_some-false→none _ new) refl (λ q. cc) refl refl)
