-- ===== src/Plan/Store.antt =====
-- The in-process store of plans (internal/usecase/agentosplan/plan_store_memory.go).
pub mod Records
pub mod Scope
pub mod Codec
pub mod Idempotency
pub mod Envelopes
pub mod State
pub mod Memory
pub mod Events
pub mod Audits
pub mod Outbox
pub mod Listings
pub mod Writes
pub mod Calls
pub mod Operations
pub mod Outgoing
pub mod Run
pub mod AppendOnly
pub mod Lockstep
pub mod Timeline
pub mod Identity
pub mod Pages
pub mod Replay
pub mod Ownership
pub mod Requests
pub mod Transitions
pub mod RoundTrip
pub mod Creation
