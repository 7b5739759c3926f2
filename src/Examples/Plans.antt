-- ===== src/Examples/Plans.antt =====
-- The theorems on the kernel, applied.
use a4s.Prelude.{
  ℕ, ◌≡◌, refl, Bool, true, false, List, [], ◌∷◌, ◌<◌, Option, none, some, ok, ℤ, pos, le_ℤ, lt_ℤ,
  ◌+◌, ◌-◌, ◌≤◌, suc, arith, String, ◌||◌, ◌==◌, Result, int64_half, uint64_mod,
}
use a4s.Prelude.Map
use a4s.Prelude.Map.{get-empty}
use mathlib.Core.List.{Memᴰ}
use mathlib.Core.List.Memᴰ.{head, tail}
use a4s.Types.Goal.{VolumeRef, max_per_domain}
use a4s.Types.Resources
use a4s.Types.World.{
  World, Allocation, Node, now, created, stopped, schedulable, failure_domain, ready_at,
}
use a4s.Types.Action.{Action, ActionKind}
use a4s.Projection.Effect.{Effect}
use a4s.Projection.Fencing.{Fenced}
use a4s.Projection.Guarantees.{Fresh, Fresh-Fenced, Fresh-Bounded, ReadyRuns, Fresh-ReadyRuns}
use a4s.Kernel.Authorize.{authorize, run_plan, validate_kind}
use a4s.Kernel.Policy.{default_policy, grants_of, granted}
use a4s.Kernel.Workload.{
  validate_create_allocation, validate_start_allocation, validate_stop_allocation,
}
use a4s.Kernel.Simulate.{simulate_kind, simulate_create_allocation}
use a4s.Kernel.Rules.{mem, disruption_floor, serving_allocations, domain_occupancy, node_allowed}
use a4s.Kernel.Governor.{is_disruptive, recent_disruptions, action_domain, ledger_domains}
use a4s.Disruption.{default_disruption_window, default_max_disruptions}
use a4s.Kernel.Refines.{simulate-Effect}
use a4s.Kernel.Plans.{authorize-ordered, authorize-keeps}
use a4s.Kernel.Bounds.{
  authorize-window, authorize-one_domain, authorize-cooldown, authorize-max_allocations, live,
  younger_than, taken_down,
}
use a4s.Kernel.Bounds as Bounds
use a4s.Kernel.Separation.{authorize-separates, brings_up, takes_down}
use a4s.Kernel.Safety.{start-Holding, stop-floor, Holding}
use a4s.Kernel.Placement.{create-capacity, create-spread}
use a4s.Examples.Cluster.{
  goal, empty_world, serving_world, raise, retire, placement_agent, rollout_agent, no_signing,
  capped_policy, create_action, start_action, stop_action, ready_replica, attached_world,
  stateful_goal, data_ref, node_one,
}

raise-authorized :
    authorize 0 no_signing capped_policy placement_agent goal empty_world raise ≡ ok tt
unfolding authorize a4s.Prelude.◌>>=◌ default_policy grants_of Map.get granted
    a4s.Types.Action.kind_text validate_kind validate_create_allocation Map.empty node_allowed
    Resources.equal Resources.fits Resources.add a4s.Prelude.add_int
    a4s.Kernel.Rules.authorized_replicas max_per_domain domain_occupancy a4s.Types.Budget.is_zero
    simulate_kind simulate_create_allocation Map.put validate_start_allocation
raise-authorized = refl

raise-authorized_by_default :
    authorize 0 no_signing default_policy placement_agent goal empty_world raise ≡ ok tt
unfolding authorize a4s.Prelude.◌>>=◌ default_policy grants_of Map.get granted
    a4s.Types.Action.kind_text validate_kind validate_create_allocation Map.empty node_allowed
    Resources.equal Resources.fits Resources.add a4s.Prelude.add_int
    a4s.Kernel.Rules.authorized_replicas max_per_domain domain_occupancy a4s.Types.Budget.is_zero
    simulate_kind simulate_create_allocation Map.put validate_start_allocation
raise-authorized_by_default = refl

retire-authorized :
    authorize 0 no_signing default_policy rollout_agent goal serving_world retire ≡ ok tt
unfolding authorize a4s.Prelude.◌>>=◌ default_policy grants_of Map.get granted
    a4s.Types.Action.kind_text validate_kind validate_stop_allocation ready_at a4s.Prelude.sub_int
    serving_allocations disruption_floor simulate_kind now failure_domain
retire-authorized = refl

empty_world-Fresh : Fresh empty_world
empty_world-Fresh = record { no_allocations = refl; no_volumes = refl }

abbrev or_else : Result World → World → World
or_else (ok w) v = w
or_else _ v = v

abbrev stopped_world : World
stopped_world = record serving_world {
  allocations =
      Map.put serving_world.allocations "web-0"
        (record (ready_replica "web-0" (pos 0)) { phase = stopped; ready = false });
}

abbrev created_world : World
created_world = or_else (simulate_create_allocation empty_world create_action) empty_world

cooldown_on : lt_ℤ (pos 0) default_policy.disruption_cooldown ≡ true
unfolding default_policy
cooldown_on = refl

stop_disrupts : is_disruptive stop_action.kind ≡ true
unfolding is_disruptive
stop_disrupts = refl

stop_domain : (action_domain serving_world stop_action == "") ≡ false
unfolding action_domain Map.get failure_domain
stop_domain = refl

busy :
    mem "n1" (
      ledger_domains
        (recent_disruptions serving_world (now 0 serving_world) default_policy.disruption_cooldown))
    ≡ true
unfolding ledger_domains recent_disruptions default_policy now
busy = refl

one_creation : Bounds.created raise.actions ≡ 1
unfolding Bounds.created
one_creation = refl

raise_creates : 0 < Bounds.created raise.actions
raise_creates = ground (arith, one_creation)

create_brings_up : brings_up create_action.kind ≡ true
unfolding brings_up
create_brings_up = refl

start-valid : validate_start_allocation stateful_goal attached_world start_action ≡ ok tt
unfolding validate_start_allocation a4s.Prelude.◌>>=◌ Map.get
start-valid = refl

stop-valid : validate_stop_allocation 0 goal serving_world stop_action ≡ ok tt
unfolding validate_stop_allocation a4s.Prelude.◌>>=◌ Map.get ready_at a4s.Prelude.sub_int
    serving_allocations disruption_floor
stop-valid = refl

stop-validated : validate_kind 0 ActionKind.stop_allocation goal serving_world stop_action ≡ ok tt
unfolding validate_kind validate_stop_allocation a4s.Prelude.◌>>=◌ Map.get ready_at
    a4s.Prelude.sub_int serving_allocations disruption_floor
stop-validated = refl

stop-simulated :
    simulate_kind ActionKind.stop_allocation serving_world stop_action ≡ ok stopped_world
unfolding simulate_kind a4s.Prelude.◌>>=◌ Map.get
stop-simulated = refl

web_known : Map.get serving_world.allocations "web-0" ≡ some (ready_replica "web-0" (pos 0))
unfolding Map.get
web_known = refl

web_ready : ready_at (ready_replica "web-0" (pos 0)) (now 0 serving_world) ≡ true
unfolding ready_at
web_ready = refl

two_serve : serving_allocations 0 goal serving_world ≡ 2
unfolding serving_allocations ready_at
two_serve = refl

few_serving : serving_allocations 0 goal serving_world < int64_half
few_serving = ground (arith, two_serve)

create-valid : validate_create_allocation 0 goal empty_world create_action ≡ ok tt
unfolding validate_create_allocation a4s.Prelude.◌>>=◌ Map.get Map.empty node_allowed
    Resources.equal Resources.fits Resources.add a4s.Prelude.add_int
    a4s.Kernel.Rules.authorized_replicas max_per_domain domain_occupancy a4s.Types.Budget.is_zero
create-valid = refl

create-simulated : simulate_create_allocation empty_world create_action ≡ ok created_world
unfolding simulate_create_allocation a4s.Prelude.◌>>=◌ Map.get
create-simulated = refl

node_known : Map.get empty_world.nodes "n1" ≡ some node_one
unfolding Map.get
node_known = refl

spread_on : lt_ℤ (pos 0) (max_per_domain goal) ≡ true
unfolding max_per_domain
spread_on = refl

authorize-ordered_example :
    (("start" == "" || mem "start" ("create" ∷ [])) ≡ false)
    × ((d : String) → mem d ("create" ∷ []) ≡ true → mem d ("create" ∷ []) ≡ true)
    × (granted (grants_of capped_policy "placement-agent") ActionKind.start_allocation ≡ true)
authorize-ordered_example =
    authorize-ordered 0 no_signing capped_policy placement_agent goal empty_world raise
      raise-authorized (create_action ∷ []) [] start_action refl

authorize-keeps_example :
    (final : World) × (run_plan 0 goal
        (grants_of capped_policy "placement-agent")
        []
        empty_world
        raise.actions
      ≡ ok final)
    × Fenced final
    × ReadyRuns final
authorize-keeps_example =
    authorize-keeps 0 no_signing capped_policy placement_agent goal empty_world raise
      raise-authorized (Fresh-Bounded 2 empty_world (ground arith) empty_world-Fresh)
      (Fresh-Fenced empty_world empty_world-Fresh) (Fresh-ReadyRuns empty_world empty_world-Fresh)

window_is : default_policy.disruption_window ≡ pos (suc (default_disruption_window - 1))
unfolding default_policy
window_is = refl

budget_is : default_policy.max_disruptions_per_window ≡ pos (suc (default_max_disruptions - 1))
unfolding default_policy
budget_is = refl

authorize-window_example :
    younger_than
        (suc (default_disruption_window - 1))
        (now 0 serving_world)
        serving_world.disruptions
      + taken_down retire.actions
    ≤ suc (default_max_disruptions - 1)
authorize-window_example =
    authorize-window 0 no_signing default_policy rollout_agent goal serving_world retire
      (default_disruption_window - 1) (default_max_disruptions - 1) retire-authorized window_is
      budget_is (ground arith)

authorize-one_domain_example :
    action_domain serving_world stop_action ≡ action_domain serving_world stop_action
authorize-one_domain_example =
    authorize-one_domain 0 no_signing default_policy rollout_agent goal serving_world retire
      retire-authorized cooldown_on stop_action stop_action (head refl) (head refl) stop_disrupts
      stop_disrupts stop_domain stop_domain

authorize-max_allocations_example :
    le_ℤ (pos (live empty_world + Bounds.created raise.actions)) (pos 5) ≡ true
authorize-max_allocations_example =
    authorize-max_allocations 0 no_signing capped_policy placement_agent goal empty_world raise
      raise-authorized refl raise_creates

authorize-separates_example : takes_down ActionKind.start_allocation ≡ false
authorize-separates_example =
    authorize-separates 0 no_signing placement_agent goal empty_world raise create_action
      start_action raise-authorized_by_default (head refl) (tail (head refl)) create_brings_up

start-Holding_example :
    (x : Allocation) × (Map.get attached_world.allocations "web-0" ≡ some x)
    × (x.phase ≡ created)
    × ((ref : VolumeRef) → Memᴰ ref (data_ref ∷ []) → Holding attached_world "web-0" ref.name x)
start-Holding_example = start-Holding stateful_goal attached_world start_action start-valid

stop-floor_example :
    le_ℤ (disruption_floor goal) (pos (serving_allocations 0 goal stopped_world)) ≡ true
stop-floor_example =
    stop-floor 0 goal serving_world stopped_world stop_action (ready_replica "web-0" (pos 0))
      stop-valid stop-simulated web_known web_ready few_serving

create-capacity_example :
    (n : Node) × (Map.get created_world.nodes "n1" ≡ some n)
    × (schedulable n ≡ true)
    × (node_allowed goal.constraints n ≡ true)
    × (Resources.fits n.used n.capacity ≡ true)
create-capacity_example =
    create-capacity 0 goal empty_world created_world create_action create-valid create-simulated

create-spread_example :
    le_ℤ
      (pos (domain_occupancy created_world "web" (failure_domain node_one)))
      (max_per_domain goal)
    ≡ true
create-spread_example =
    create-spread 0 goal empty_world created_world create_action node_one create-valid
      create-simulated node_known spread_on

simulate-Effect_example : Effect serving_world stopped_world
simulate-Effect_example =
    simulate-Effect 0 goal serving_world stopped_world stop_action stop-validated stop-simulated
