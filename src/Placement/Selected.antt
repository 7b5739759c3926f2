-- ===== src/Placement/Selected.antt =====
-- control/agents.go, `selectNode`: what the selected node satisfies.
use a4s.Prelude.{◌≡◌, Bool, true, false, ◌&&◌, Option, none, some, String}
use a4s.Prelude.Map
use a4s.Types.Budget
use a4s.Types.Resources
use a4s.Types.Goal.{Goal, AgentRuntime}
use a4s.Types.World.{World, Node, Time, now, schedulable, can_reach}
use a4s.Kernel.Rules.{node_allowed}
use a4s.Placement.{Search, Taken, is_crowded, used_with, committed_with}

-- Whether an agent's provider is reached from a node with room for its budget.
abbrev pub can_spend : Time → World → Taken → String → Node → Option AgentRuntime → Bool
can_spend clock w t id n none = true
can_spend clock w t id n (some r) =
    can_reach n r.provider (now clock w)
    && Budget.fits (committed_with t id n r.budget) n.budget_capacity

-- What placement may select: a node of the world that is in service and allowed, in a domain with
-- room, on which the replica fits beside what the proposal has reserved.
pub record Suits (clock : Time) (g : Goal) (w : World) (t : Taken) (n : Node) : Type 0 where
  id : String
  found : Map.get w.nodes id ≡ some n
  in_service : schedulable n ≡ true
  allowed : node_allowed g.constraints n ≡ true
  spread : is_crowded g t n ≡ false
  fits : Resources.fits (used_with g t id n) n.capacity ≡ true
  spends : can_spend clock w t id n g.workload.runtime ≡ true

abbrev Found : Time → Goal → World → Taken → Search → Type 0
Found clock g w t s = (n : Node) → s.selected ≡ some n → Suits clock g w t n
