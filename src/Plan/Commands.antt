-- ===== src/Plan/Commands.antt =====
-- The outbox of plan commands (internal/usecase/agentosplan/commands.go, and the types of
-- contract.go).
pub mod Status
pub mod Lifecycle
