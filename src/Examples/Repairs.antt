-- ===== src/Examples/Repairs.antt =====
-- What the remediation agent proposes for two replicas on a node that was taken out of service.
use a4s.Prelude.{ℕ, ◌≡◌, refl, true, none, [], ◌∷◌, String}
use a4s.Prelude.Map
use a4s.Prelude.Map.Keys.{is_distinct}
use a4s.Types.World.{World}
use a4s.Remediation.{propose}
use a4s.Remediation.Repairs.{Repair, propose-repairs}
use a4s.Examples.Cluster.{goal, node_one, serving_world}

abbrev draining : World
draining = record serving_world {
  nodes = record { entries = ("n1", record node_one { cordoned = true }) ∷ [] };
}

abbrev numbered : String → ℕ → String
numbered agent revision = "remediation-agent-r3"

nodes-IsDistinct : is_distinct draining.nodes ≡ true
unfolding is_distinct
nodes-IsDistinct = refl

allocations-IsDistinct : is_distinct draining.allocations ≡ true
unfolding is_distinct
allocations-IsDistinct = refl

no_blank_node : Map.get draining.nodes "" ≡ none
unfolding Map.get
no_blank_node = refl

no_blank_allocation : Map.get draining.allocations "" ≡ none
unfolding Map.get
no_blank_allocation = refl

propose-repairs_example : Repair goal draining (propose numbered goal draining).actions
propose-repairs_example =
    propose-repairs numbered goal draining nodes-IsDistinct allocations-IsDistinct no_blank_node
      no_blank_allocation
