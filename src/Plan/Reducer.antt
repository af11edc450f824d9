-- ===== src/Plan/Reducer.antt =====
-- The reducer of plan events: internal/usecase/agentosplan/state.go.
pub mod Events
pub mod State
pub mod Gate
pub mod Nodes
pub mod Apply
pub mod Restore
pub mod Cases
pub mod Errors
pub mod NodeMap
pub mod Frame
pub mod Projection
pub mod Approval
pub mod Lifecycle
pub mod RestoreLoops
pub mod RoundTrip
pub mod Reach
