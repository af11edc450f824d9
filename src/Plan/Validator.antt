-- ===== src/Plan/Validator.antt =====
-- The validation of a run plan (internal/usecase/agentosplan/validator.go).
pub mod Order
pub mod Counts
pub mod Release
pub mod Topological
pub mod Sorted
pub mod Fuel
pub mod Contracts
pub mod Nodes
pub mod Edges
pub mod Paths
pub mod Validate
pub mod Search
pub mod Reachable
pub mod Graph
pub mod Executable
