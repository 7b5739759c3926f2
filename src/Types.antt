-- ===== src/Types.antt =====
-- control/types.go, one module for each group of types.
pub mod Budget
pub mod Resources
pub mod Goal
pub mod World
pub mod Action
pub mod Evidence
