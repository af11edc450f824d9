-- ===== src/Action/Lifecycle.antt =====
-- The life cycle of a governed action (internal/usecase/agentosaction/runtime.go): what each use case
-- makes of the request and the status that it reads. `now` is the reading of the clock.
use go_agent.Prelude.{
  ◌==◌, String, is_empty, Bool, false, not, ◌&&◌, ◌||◌, key_eq, string_key, [], ◌∷◌, none, some,
  Option, Error, Result, ok, err, errorf, err_invalid_governed_action, check, if◌then◌else◌,
}
use go_agent.Control.{Time}
use go_agent.Action.Records.{
  ActionRef, GovernedActionSpec, GovernedActionStatus, ActionDryRunResult, ActionApprovalDecision,
  ActionExecutionResult, ActionCancelRequest, action_waiting_dry_run, action_waiting_approval,
  action_ready, action_executing, action_executed, action_failed, action_canceled, gate_pending,
  gate_succeeded, gate_failed, gate_approved, gate_rejected,
}

abbrev pub action_timestamp : Time → Time → Time
action_timestamp now ts = if ts == 0 then now else ts

unfoldable pub initial_action_status : Time → GovernedActionSpec → GovernedActionStatus
initial_action_status now spec = record {
  action_id = spec.action_id;
  account_id = spec.account_id;
  project_id = spec.project_id;
  process_id = spec.process_id;
  resource = spec.resource;
  kind = spec.kind;
  lifecycle_state =
      if spec.dry_run_required
      then action_waiting_dry_run
      else if spec.approval_required
      then action_waiting_approval
      else action_ready;
  dry_run_state = if spec.dry_run_required then gate_pending else "";
  approval_state = if spec.approval_required then gate_pending else "";
  execution_state = gate_pending;
  risk = spec.risk;
  reason = "";
  updated_at = action_timestamp now spec.requested_at;
}

abbrev pub lifecycle_after_dry_run : GovernedActionSpec → String
lifecycle_after_dry_run spec =
    if spec.approval_required then action_waiting_approval else action_ready

abbrev pub lifecycle_after_approval : GovernedActionSpec → String → String
lifecycle_after_approval spec dry_run_state =
    if spec.dry_run_required && not (key_eq dry_run_state gate_succeeded)
    then action_waiting_dry_run
    else action_ready

unfoldable pub action_ready_for_execution : GovernedActionStatus → Bool
action_ready_for_execution status =
    if not (key_eq status.lifecycle_state action_ready)
      && not (key_eq status.lifecycle_state action_executing)
    then false
    else if not (is_empty status.dry_run_state) && not (key_eq status.dry_run_state gate_succeeded)
    then false
    else is_empty status.approval_state || key_eq status.approval_state gate_approved

abbrev pub require_key : String → String → Option Error
require_key message key =
    if is_empty key then some (errorf err_invalid_governed_action message []) else none

-- A status to be written under a key.
pub record Draft : Type 0 where
  pub status : GovernedActionStatus
  pub key : String

abbrev pub dry_run_draft :
    Time → ActionDryRunResult → GovernedActionSpec → GovernedActionStatus → Draft
dry_run_draft now result spec status = record {
  status = record status {
    risk = if is_empty result.risk.level then status.risk else result.risk;
    updated_at = action_timestamp now result.recorded_at;
    dry_run_state = if result.succeeded then gate_succeeded else gate_failed;
    lifecycle_state = if result.succeeded then lifecycle_after_dry_run spec else action_failed;
    execution_state = if result.succeeded then status.execution_state else gate_failed;
    reason = if result.succeeded then status.reason else result.summary;
  };
  key = result.idempotency_key;
}

unfoldable pub next_dry_run :
    Time → ActionRef → ActionDryRunResult → GovernedActionSpec → GovernedActionStatus → Result Draft
next_dry_run now ref result spec status =
    check (require_key "dry-run idempotency key is required" result.idempotency_key) (
      if is_empty status.dry_run_state
      then err (
          errorf err_invalid_governed_action "action %q does not require dry-run"
            (ref.action_id ∷ []))
      else ok (dry_run_draft now result spec status))

abbrev pub approval_draft :
    Time → ActionApprovalDecision → GovernedActionSpec → GovernedActionStatus → Draft
approval_draft now decision spec status = record {
  status = record status {
    updated_at = action_timestamp now decision.decided_at;
    approval_state = if decision.approved then gate_approved else gate_rejected;
    lifecycle_state =
        if decision.approved
        then lifecycle_after_approval spec status.dry_run_state
        else action_canceled;
    reason = if decision.approved then status.reason else decision.reason;
  };
  key = decision.idempotency_key;
}

unfoldable pub next_approval :
    Time
    → ActionRef
    → ActionApprovalDecision
    → GovernedActionSpec
    → GovernedActionStatus
    → Result Draft
next_approval now ref decision spec status =
    check (require_key "approval idempotency key is required" decision.idempotency_key) (
      if is_empty status.approval_state
      then err (
          errorf err_invalid_governed_action "action %q does not require approval"
            (ref.action_id ∷ []))
      else ok (approval_draft now decision spec status))

abbrev pub execution_draft : Time → ActionExecutionResult → GovernedActionStatus → Draft
execution_draft now result status = record {
  status = record status {
    updated_at = action_timestamp now result.recorded_at;
    lifecycle_state = if result.succeeded then action_executed else action_failed;
    execution_state = if result.succeeded then gate_succeeded else gate_failed;
    reason = if result.succeeded then status.reason else result.summary;
  };
  key = result.idempotency_key;
}

unfoldable pub next_execution :
    Time → ActionRef → ActionExecutionResult → GovernedActionStatus → Result Draft
unfolding action_ready_for_execution
next_execution now ref result status =
    check (require_key "execution idempotency key is required" result.idempotency_key) (
      if not (action_ready_for_execution status)
      then err (
          errorf err_invalid_governed_action "action %q is not ready for execution"
            (ref.action_id ∷ []))
      else ok (execution_draft now result status))

abbrev pub cancel_draft : Time → ActionCancelRequest → GovernedActionStatus → Draft
cancel_draft now req status = record {
  status = record status {
    lifecycle_state = action_canceled;
    reason = req.reason;
    updated_at = action_timestamp now req.requested_at;
  };
  key = req.idempotency_key;
}

unfoldable pub next_cancel :
    Time → ActionRef → ActionCancelRequest → GovernedActionStatus → Result Draft
next_cancel now ref req status =
    check (require_key "cancel idempotency key is required" req.idempotency_key) (
      if key_eq status.lifecycle_state action_executed
      then err
          (errorf err_invalid_governed_action "action %q is already executed" (ref.action_id ∷ []))
      else ok (cancel_draft now req status))

-- The calls on an action, and what each makes of what it read.
pub data Call : Type 0 where
  record_dry_run : ActionDryRunResult → Call
  resolve_approval : ActionApprovalDecision → Call
  complete : ActionExecutionResult → Call
  cancel : ActionCancelRequest → Call

unfoldable pub next :
    Time → ActionRef → Call → GovernedActionSpec → GovernedActionStatus → Result Draft
unfolding next_dry_run next_approval next_execution next_cancel
next now ref (record_dry_run result) spec status = next_dry_run now ref result spec status
next now ref (resolve_approval decision) spec status = next_approval now ref decision spec status
next now ref (complete result) spec status = next_execution now ref result status
next now ref (cancel req) spec status = next_cancel now ref req status
