-- ===== src/Kernel.antt =====
-- control/policy.go: the kernel that decides whether a proposal may run.
pub mod Rules
pub mod Storage
pub mod Workload
pub mod Fabric
pub mod Simulate
pub mod Policy
pub mod Governor
pub mod Provenance
pub mod Authorize
pub mod Refines
pub mod Plans
pub mod Bounds
pub mod Safety
pub mod Placement
pub mod Separation
