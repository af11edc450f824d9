-- ===== src/Ledger.antt =====
-- The ledger of processes: an append-only list of audit facts (internal/usecase/agentosledger).
pub mod Records
pub mod Validate
pub mod Memory
pub mod Runtime
pub mod Log
pub mod Indexed
pub mod Refinement
pub mod Replay
mod Examples
