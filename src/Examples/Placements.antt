-- ===== src/Examples/Placements.antt =====
-- The node that is selected for a replica of a workload, in a cluster of one node.
use a4s.Prelude.Map
use a4s.Placement.{Taken}

abbrev nothing_taken : Taken
nothing_taken = record { reserved = Map.empty; reserved_budget = Map.empty; occupancy = Map.empty }
