-- ===== src/Action.antt =====
-- Governed actions: a request with a dry run, an approval and an execution
-- (internal/usecase/agentosaction).
pub mod Records
pub mod Validate
pub mod State
pub mod Listing
pub mod Memory
pub mod Lifecycle
pub mod Runtime
pub mod Gates
pub mod System
pub mod Reading
pub mod Safety
pub mod Replay
mod Examples
