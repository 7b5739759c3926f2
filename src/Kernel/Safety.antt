-- ===== src/Kernel/Safety.antt =====
-- control/policy.go: what the validators of starts, stops and creations promise.
use a4s.Prelude.{
  and_false, ℕ, ◌+◌, ◌≤◌, ◌<◌, ◌≡◌, sym, ◌∙◌, ap, subst, true, false, ◌&&◌, List, [], ◌∷◌, some,
  String, eq_iff, ℤ, pos, le_ℤ, lt_ℤ, sub_int, sub_int_exact, InInt64, int64_half, ◌-ℤ◌, ok,
  Ensures, Ensures-ok, require-Ensures, refuse-Ensures, or_fail-Ensures, bind-Ensures,
  result-Ensures, arith, eqb, ◌>>=◌, refuse-eq-ok, or_fail, some-injective, ok-injective,
}
use a4s.Prelude.Map
use a4s.Prelude.Map.{Map, count, count-put, count-ext, get-put}
use mathlib.Core.List.{Memᴰ}
use mathlib.Core.List.Memᴰ
use mathlib.Core.List.Memᴰ.{head, tail}
use a4s.Types.Goal.{Goal, VolumeRef}
use a4s.Types.World.{World, Volume, Allocation, Time, now, ready_at, created, stopped}
use a4s.Types.Action.{Action, ActionKind}
use a4s.Projection.Allocations.{put_allocation}
use a4s.Kernel.Rules.{serves, serving_allocations, disruption_floor}
use a4s.Kernel.Workload.{validate_start_allocation, volumes_held, validate_stop_allocation}
use a4s.Kernel.Simulate.{simulate_kind, with_allocation}

-- What a started allocation holds of the volumes of its workload.
pub data Holding (w : World) (target name : String) (a : Allocation) : Type 0 where
  holding :
      (v : Volume)
      → Map.get w.volumes name ≡ some v
      → Map.get a.volumes name ≡ some v.generation
      → v.owner ≡ target
      → Holding w target name a

eqb→eq : (a b : ℕ) → eqb a b ≡ true → a ≡ b
eqb→eq a b h = ground arith

volumes_held-Holding :
    (refs : List VolumeRef) (w : World) (target : String) (a : Allocation) (ref : VolumeRef)
    → Memᴰ ref refs
    → Ensures (λ _. Holding w target ref.name a) (volumes_held w target a refs)
unfolding volumes_held
volumes_held-Holding [] w target a ref m = absurd (Memᴰ.not-nil m)
volumes_held-Holding (x ∷ refs) w target a ref (head e) = or_fail-Ensures _ _ _ λ v known.
    or_fail-Ensures _ _ _ λ held has'. require-Ensures _ _ _ λ same. require-Ensures _ _ _ λ own.
      result-Ensures _ λ _ _.
        subst (λ y. Holding w target y.name a) (sym e)
          (holding v known (has' ∙ ap some (eqb→eq held v.generation same))
            ((eq_iff v.owner target).0 own))
volumes_held-Holding (x ∷ refs) w target a ref (tail m) = or_fail-Ensures _ _ _ λ v known.
    or_fail-Ensures _ _ _ λ held has'.
      require-Ensures _ _ _
        λ same. require-Ensures _ _ _ λ own. volumes_held-Holding refs w target a ref m

in_range : (n : ℕ) → n < int64_half → InInt64 (pos n -ℤ pos 1)
unfolding ◌-ℤ◌
in_range n h = ground arith

floor_left :
    (n m : ℕ) (floor : ℤ)
    → lt_ℤ (pos n -ℤ pos 1) floor ≡ false
    → n ≤ m + 1
    → le_ℤ floor (pos m) ≡ true
unfolding ◌-ℤ◌
floor_left n m floor h k = ground arith

start-Ensures :
    (g : Goal) (w : World) (a : Action)
    → Ensures
        (λ _.
          (x : Allocation) × (Map.get w.allocations a.target ≡ some x)
          × (x.phase ≡ created)
          × ((ref : VolumeRef) → Memᴰ ref g.workload.volumes → Holding w a.target ref.name x))
        (validate_start_allocation g w a)
unfolding validate_start_allocation
start-Ensures g w a = or_fail-Ensures _ _ _ λ x held. require-Ensures _ _ _ λ phase.
    require-Ensures _ _ _ λ _. bind-Ensures _ _ λ t vols. result-Ensures _ λ _ _. (
      x,
      held,
      ground (arith, phase),
      λ ref m. Ensures-ok (volumes_held-Holding g.workload.volumes w a.target x ref m) vols,
    )

-- An allocation may be started only if it is there in phase created, and it holds the current
-- generation of every volume that the goal declares and owns that volume.
pub start-Holding :
    (g : Goal) (w : World) (a : Action)
    → validate_start_allocation g w a ≡ ok tt
    → (x : Allocation) × (Map.get w.allocations a.target ≡ some x)
      × (x.phase ≡ created)
      × ((ref : VolumeRef) → Memᴰ ref g.workload.volumes → Holding w a.target ref.name x)
start-Holding g w a h = Ensures-ok (start-Ensures g w a) h

stop-Ensures :
    (clock : Time) (g : Goal) (w : World) (a : Action)
    → Ensures
        (λ _.
          (x : Allocation) × (Map.get w.allocations a.target ≡ some x)
          × ((ready_at x (now clock w)
                && lt_ℤ
                    (sub_int (pos (serving_allocations clock g w)) (pos 1))
                    (disruption_floor g))
              ≡ false))
        (validate_stop_allocation clock g w a)
unfolding validate_stop_allocation
stop-Ensures clock g w a = or_fail-Ensures _ _ _ λ x held. require-Ensures _ _ _ λ _.
    require-Ensures _ _ _
      λ _. refuse-Ensures _ _ _ λ _. result-Ensures _ λ _ e. (x, held, refuse-eq-ok _ _ e)

-- The allocation after the simulation of a stop.
abbrev stopped_allocation : Allocation → Allocation
stopped_allocation x = record x { phase = stopped; ready = false }

simulated_stop :
    (w u : World) (a : Action) (x : Allocation)
    → simulate_kind ActionKind.stop_allocation w a ≡ ok u
    → Map.get w.allocations a.target ≡ some x
    → u ≡ put_allocation w a.target (stopped_allocation x)
unfolding simulate_kind with_allocation or_fail ◌>>=◌
simulated_stop w u a x sim held = sym (ok-injective (rw held at sim))

serving-stop :
    (clock : Time) (g : Goal) (w : World) (target : String) (x : Allocation)
    → Map.get w.allocations target ≡ some x
    → serving_allocations clock g w
      ≤ serving_allocations clock g (put_allocation w target (stopped_allocation x)) + 1
unfolding serving_allocations serves ready_at now
serving-stop clock g w target x held =
    let p = serves g.workload.name (now clock w) in
    let c = count-put p w.allocations target (stopped_allocation x) in ground (arith, c)

-- A stop that is allowed leaves at least the floor of serving replicas: if the allocation is ready
-- and fewer than 2^63 allocations serve, those that serve after the simulation of the stop are not
-- below the floor.
pub stop-floor :
    (clock : Time) (g : Goal) (w u : World) (a : Action) (x : Allocation)
    → validate_stop_allocation clock g w a ≡ ok tt
    → simulate_kind ActionKind.stop_allocation w a ≡ ok u
    → Map.get w.allocations a.target ≡ some x
    → ready_at x (now clock w) ≡ true
    → serving_allocations clock g w < int64_half
    → le_ℤ (disruption_floor g) (pos (serving_allocations clock g u)) ≡ true
stop-floor clock g w u a x valid sim held ready small =
    let (y, held', free) = Ensures-ok (stop-Ensures clock g w a) valid in
    let same = some-injective (sym held ∙ held') in
    let n = serving_allocations clock g w in
    let after = ap (serving_allocations clock g) (simulated_stop w u a x sim held) in
    let fewer = serving-stop clock g w a.target x held in
    let exact = sub_int_exact (pos n) (pos 1) (in_range n small) in
    let under =
      and_false (ready_at y (now clock w)) _ (ap (λ z. ready_at z (now clock w)) (sym same) ∙ ready)
        free in
    floor_left n (serving_allocations clock g u) (disruption_floor g) (rw exact at under)
      (rw after fewer)
