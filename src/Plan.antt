-- ===== src/Plan.antt =====
-- The coordinator of run plans (internal/usecase/agentosplan).
pub mod Reducer
pub mod Scheduler
pub mod Commands
pub mod Policy
pub mod Validator
pub mod Delta
pub mod Approval
pub mod Store
pub mod Recovery
mod Examples
