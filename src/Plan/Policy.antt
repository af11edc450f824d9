-- ===== src/Plan/Policy.antt =====
-- The guards of a plan's policy (internal/usecase/agentosplan/policy.go; validator.go,
-- `normalizePolicy`).
pub mod Guards
pub mod Monotone
