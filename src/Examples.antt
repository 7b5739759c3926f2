-- ===== src/Examples.antt =====
-- A small cluster, on which the theorems are applied and the definitions run.
pub mod Cluster
pub mod Logs
pub mod Plans
pub mod Leases
pub mod Queues
pub mod Gates
pub mod Schedules
pub mod Copies
pub mod Executions
pub mod Repairs
pub mod Placements
pub mod Chains
