-- ===== src/Plan/Scheduler.antt =====
-- Which nodes of a plan run next (internal/usecase/agentosplan/scheduler.go).
pub mod Trigger
pub mod Dependencies
pub mod Decide
pub mod Join
pub mod Selection
pub mod Exclusive
pub mod Progress
