-- ===== src/Plan/Examples.antt =====
-- A small plan, and the theorems of the coordinator at it.
mod Data
mod Reducer
mod Scheduler
mod Commands
mod Validator
mod Approval
mod Calls
mod Store
mod Recovery
