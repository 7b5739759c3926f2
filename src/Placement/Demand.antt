-- ===== src/Placement/Demand.antt =====
-- control/agents.go: how many replicas a goal justifies now, and where the data of the workload is.
use a4s.Prelude.{
  ℕ, ◌+◌, ◌*◌, leb, Bool, false, not, is_some, Option, none, some, List, [], ◌∷◌, String, ◌==◌, ◌≡◌,
  if◌then◌else◌, ℤ, lt_ℤ, arith, Bool-cases, inl, inr, if_intro,
}
use a4s.Prelude.Map
use a4s.Types.Goal.{Goal, VolumeRef}
use a4s.Types.World.{World, Queue, Volume, Time, now, is_zero_time, desired_workers}

abbrev pub max_queue_depth_age : ℕ
max_queue_depth_age = 60 * 1000000000

unfoldable pub queue_fresh : Queue → Time → Bool
queue_fresh q t =
    if is_zero_time q.observed_at then false else leb t (q.observed_at + max_queue_depth_age)

abbrev pub owned_queue : String → Option Queue → Option Queue
owned_queue workload none = none
owned_queue workload (some q) = if not (q.workload == workload) then none else some q

unfoldable pub workload_queue : Goal → World → Option Queue
workload_queue g w = elim g.workload.runtime [
  | none ↦ none
  | some r ↦ if r.queue == "" then none else owned_queue g.workload.name (Map.get w.queues r.queue)
]

unfoldable pub replicas_for : (replicas : ℤ) → Time → (running : ℤ) → Option Queue → ℤ
unfolding queue_fresh
replicas_for replicas t running none = replicas
replicas_for replicas t running (some q) =
    let desired = desired_workers q running in
    if not (queue_fresh q t) then replicas else if lt_ℤ desired replicas then replicas else desired

unfoldable pub desired_replicas : Time → Goal → World → (running : ℤ) → ℤ
unfolding replicas_for workload_queue
desired_replicas clock g w running =
    replicas_for g.workload.replicas (now clock w) running (workload_queue g w)

unfoldable pub volume_home : World → List VolumeRef → String
volume_home w [] = ""
volume_home w (ref ∷ refs) = elim (Map.get w.volumes ref.name) [
  | none ↦ volume_home w refs
  | some v ↦ v.node
]

abbrev pub is_moving : Option Volume → Bool
is_moving none = false
is_moving (some v) = is_some v.handoff

unfoldable pub volume_in_flight : World → List VolumeRef → String
volume_in_flight w [] = ""
volume_in_flight w (ref ∷ refs) =
    let rest = volume_in_flight w refs in
    if is_moving (Map.get w.volumes ref.name) then ref.name else rest

lt_ℤ_irrefl : (z : ℤ) → lt_ℤ z z ≡ false
lt_ℤ_irrefl z = ground arith

floored :
    (replicas desired : ℤ)
    → lt_ℤ (if lt_ℤ desired replicas then replicas else desired) replicas ≡ false
floored replicas desired = elim (Bool-cases (lt_ℤ desired replicas)) [
  | inl e ↦ rw (e) (lt_ℤ_irrefl replicas)
  | inr e ↦ rw (e) e
]

replicas_for-floor :
    (replicas : ℤ) (t : Time) (running : ℤ) (o : Option Queue)
    → lt_ℤ (replicas_for replicas t running o) replicas ≡ false
unfolding replicas_for
replicas_for-floor replicas t running none = lt_ℤ_irrefl replicas
replicas_for-floor replicas t running (some q) =
    if_intro (λ d. lt_ℤ d replicas ≡ false) (not (queue_fresh q t)) (lt_ℤ_irrefl replicas)
      (floored replicas (desired_workers q running))

-- A workload is never given fewer replicas than its goal declares.
pub desired_replicas-floor :
    (clock : Time) (g : Goal) (w : World) (running : ℤ)
    → lt_ℤ (desired_replicas clock g w running) g.workload.replicas ≡ false
unfolding desired_replicas
desired_replicas-floor clock g w running =
    replicas_for-floor g.workload.replicas (now clock w) running (workload_queue g w)
