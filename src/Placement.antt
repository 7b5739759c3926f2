-- ===== src/Placement.antt =====
-- control/agents.go, `selectNode`: the node on which the placement agent puts a replica. `reserved`,
-- `reserved_budget` and `occupancy` are what the same proposal has taken before; `clock` is the wall
-- clock, which only a world that was never observed is read by.
pub mod Demand
pub mod Selected
use Prim.Native.String.{compare}
use Prim.Native.Nat.{Ordering}
use a4s.Prelude.{
  ℕ, ◌+◌, ltb, Bool, true, false, ◌&&◌, ◌||◌, not, is_some, Option, none, some, List, [], ◌∷◌,
  String, if◌then◌else◌, ℤ, pos, negsuc, lt_ℤ, le_ℤ, sub_int, Result, ok, err,
}
use a4s.Prelude.Map
use a4s.Prelude.Map.{Map}
use a4s.Types.Budget
use a4s.Types.Budget.{Budget}
use a4s.Types.Resources
use a4s.Types.Resources.{Resources}
use a4s.Types.Goal.{Goal, AgentRuntime, max_per_domain}
use a4s.Types.World.{World, Node, Time, now, schedulable, can_reach, failure_domain}
use a4s.Kernel.Rules.{node_allowed}

-- The values that a missing key has.
abbrev pub resources_at : Map Resources → String → Resources
resources_at m k = elim (Map.get m k) [
  | none ↦ record { cpu_millis = pos 0; memory_mb = pos 0 }
  | some r ↦ r
]

abbrev pub budget_at : Map Budget → String → Budget
budget_at m k = elim (Map.get m k) [ none ↦ Budget.zero_budget | some b ↦ b ]

abbrev pub count_at : Map ℤ → String → ℤ
count_at m k = elim (Map.get m k) [ none ↦ pos 0 | some n ↦ n ]

-- `sort.Strings`, by insertion.
abbrev pub insert_text : String → List String → List String
insert_text x [] = x ∷ []
insert_text x (y ∷ ys) = elim (compare x y) [ Ordering.gt ↦ y ∷ insert_text x ys | _ ↦ x ∷ y ∷ ys ]

abbrev pub sorted_keys {ℓ} : {V : Type ℓ} → List (String × V) → List String
sorted_keys [] = []
sorted_keys ((k, _) ∷ m) = insert_text k (sorted_keys m)

-- The variables of the loop.
pub record Search : Type 0 where
  pub selected : Option Node
  pub best_free_memory : ℤ
  pub unreachable : ℕ
  pub crowded : ℕ

pub record Taken : Type 0 where
  pub reserved : Map Resources
  pub reserved_budget : Map Budget
  pub occupancy : Map ℤ

abbrev pub is_crowded : Goal → Taken → Node → Bool
is_crowded g t n =
    lt_ℤ (pos 0) (max_per_domain g)
    && le_ℤ (max_per_domain g) (count_at t.occupancy (failure_domain n))

abbrev pub used_with : Goal → Taken → String → Node → Resources
used_with g t id n =
    Resources.add (Resources.add n.used (resources_at t.reserved id)) g.workload.resources

-- The committed spend of a node, with the budget of one more agent.
abbrev pub committed_with : Taken → String → Node → Budget → Budget
committed_with t id n budget =
    Budget.add (Budget.add n.budget_used (budget_at t.reserved_budget id)) budget

unfoldable pub prefer : Search → Node → (free_memory : ℤ) → Search
prefer s n free_memory =
    if not (is_some s.selected) || lt_ℤ s.best_free_memory free_memory
    then record s { selected = some n; best_free_memory = free_memory }
    else s

-- The part of the loop's body on the runtime of an agent workload.
unfoldable pub weigh :
    Time → World → Taken → Search → (kept : Search) → String → Node → Option AgentRuntime → Search
weigh clock w t s kept id n none = kept
weigh clock w t s kept id n (some r) =
    if not (can_reach n r.provider (now clock w))
    then record s { unreachable = s.unreachable + 1 }
    else if not (Budget.fits (committed_with t id n r.budget) n.budget_capacity)
    then s
    else kept

unfoldable pub consider_node : Time → Goal → World → Taken → Search → String → Node → Search
unfolding weigh prefer
consider_node clock g w t s id n =
    if not (schedulable n) || not (node_allowed g.constraints n)
    then s
    else if is_crowded g t n
    then record s { crowded = s.crowded + 1 }
    else if not (Resources.fits (used_with g t id n) n.capacity)
    then s
    else let kept = prefer s n (sub_int n.capacity.memory_mb (used_with g t id n).memory_mb) in
      weigh clock w t s kept id n g.workload.runtime

unfoldable pub consider : Time → Goal → World → Taken → Search → String → Option Node → Search
unfolding consider_node
consider clock g w t s id none = s
consider clock g w t s id (some n) = consider_node clock g w t s id n

unfoldable pub consider_each : Time → Goal → World → Taken → Search → List String → Search
unfolding consider
consider_each clock g w t s [] = s
consider_each clock g w t s (id ∷ ids) =
    consider_each clock g w t (consider clock g w t s id (Map.get w.nodes id)) ids

abbrev pub none_yet : Search
none_yet = record { selected = none; best_free_memory = negsuc 0; unreachable = 0; crowded = 0 }

unfoldable pub selection : Goal → Search → Option Node → Result Node
selection g s (some n) = ok n
selection g s none =
    if is_some g.workload.runtime && ltb 0 s.unreachable
    then err "no healthy node can reach provider %q with budget capacity for workload %q"
    else if ltb 0 s.crowded
    then err "every candidate failure domain already holds %d replicas of workload %q"
    else err "no healthy node satisfies placement and capacity constraints"

unfoldable pub select_node : Time → Goal → World → Taken → Result Node
unfolding consider_each selection
select_node clock g w t =
    let s = consider_each clock g w t none_yet (sorted_keys w.nodes.entries) in
    selection g s s.selected
