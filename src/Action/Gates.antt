-- ===== src/Action/Gates.antt =====
-- No action passes the gates that its request asks for.
use go_agent.Prelude.{
  is_empty, Bool, true, false, not, ◌&&◌, ◌||◌, key_eq, string_key, none, some, Option, Error, ok,
  err, check, ◌≡◌, refl, subst, inl, inr, Bool-cases, arith, ok_injective, if◌then◌else◌,
}
use go_agent.Control.{Time}
use go_agent.Action.Records.{
  ActionRef, GovernedActionSpec, GovernedActionStatus, ActionDryRunResult, ActionApprovalDecision,
  ActionExecutionResult, ActionCancelRequest, action_ready, action_executed, gate_succeeded,
  gate_approved, action_start_key, action_status_key,
}
use go_agent.Action.Memory.{normalize_action_status}
use go_agent.Action.Lifecycle.{
  Call, Draft, dry_run_draft, approval_draft, execution_draft, cancel_draft, initial_action_status,
  next, action_ready_for_execution,
}

-- The action may be executed, or has been.
abbrev pub is_cleared : GovernedActionStatus → Bool
is_cleared status =
    key_eq status.lifecycle_state action_ready || key_eq status.lifecycle_state action_executed

-- The status is the action's own; it has a gate exactly where the request asks for one; and where
-- the action is cleared each of its gates is passed.
pub record IsGated (spec : GovernedActionSpec) (status : GovernedActionStatus) : Type 0 where
  pub own : status.action_id ≡ spec.action_id
  pub dry_run : is_empty status.dry_run_state ≡ not spec.dry_run_required
  pub approval : is_empty status.approval_state ≡ not spec.approval_required
  pub rehearsed :
      (is_cleared status
        && spec.dry_run_required
        && not (key_eq status.dry_run_state gate_succeeded))
      ≡ false
  pub approved :
      (is_cleared status
        && spec.approval_required
        && not (key_eq status.approval_state gate_approved))
      ≡ false

pub initial-IsGated :
    (now : Time) (spec : GovernedActionSpec)
    → IsGated spec (normalize_action_status spec (initial_action_status now spec))
unfolding normalize_action_status initial_action_status
initial-IsGated now spec = elim (Bool-cases spec.dry_run_required) [
  | inl dry ↦ elim (Bool-cases spec.approval_required) [
    | inl gate ↦ rw (dry, gate) (ground arith)
    | inr open_ ↦ rw (dry, open_) (ground arith)
  ]
  | inr direct ↦ elim (Bool-cases spec.approval_required) [
    | inl gate ↦ rw (direct, gate) (ground arith)
    | inr open_ ↦ rw (direct, open_) (ground arith)
  ]
]

-- A guarded draft that is made is the draft, and the guards let it pass.
guarded :
    (key : Option Error) (refuse : Bool) (e : Error) (made : Draft) {d : Draft}
    → check key (if refuse then err e else ok made) ≡ ok d
    → (refuse ≡ false) × (made ≡ d)
guarded none true e made h = cc
guarded none false e made {d} h = (refl, ok_injective made d h)
guarded (some x) refuse e made h = cc

module _ (now : Time) (spec : GovernedActionSpec) (status : GovernedActionStatus)
    (g : IsGated spec status) where
  dry_run_draft-IsGated :
      (result : ActionDryRunResult)
      → is_empty status.dry_run_state ≡ false
      → IsGated spec (dry_run_draft now result spec status).status
  dry_run_draft-IsGated result has_gate = elim (Bool-cases result.succeeded) [
    | inr bad ↦ rw bad (ground arith)
    | inl good ↦ elim (Bool-cases spec.approval_required) [
      | inl gate ↦ rw (good, gate) (ground arith)
      | inr open_ ↦ rw (good, open_) (ground arith)
    ]
  ]

  approval_draft-IsGated :
      (decision : ActionApprovalDecision)
      → is_empty status.approval_state ≡ false
      → IsGated spec (approval_draft now decision spec status).status
  approval_draft-IsGated decision has_gate = elim (Bool-cases decision.approved) [
    | inr bad ↦ rw bad (ground arith)
    | inl good ↦
        let waits = spec.dry_run_required && not (key_eq status.dry_run_state gate_succeeded) in
        elim (Bool-cases waits) [
          | inl later ↦ rw (good, later) (ground arith)
          | inr now_ ↦ rw (good, now_) (ground arith)
        ]
  ]

  execution_draft-IsGated :
      (result : ActionExecutionResult)
      → not (action_ready_for_execution status) ≡ false
      → IsGated spec (execution_draft now result status).status
  unfolding action_ready_for_execution
  execution_draft-IsGated result ready = ground arith

  cancel_draft-IsGated :
      (req : ActionCancelRequest) → IsGated spec (cancel_draft now req status).status
  cancel_draft-IsGated req = ground arith

  pub next-IsGated :
      (ref : ActionRef) (call : Call) {d : Draft}
      → next now ref call spec status ≡ ok d
      → IsGated spec d.status
  unfolding next
  next-IsGated ref (Call.record_dry_run result) h =
      let (passed, made) = guarded _ _ _ (dry_run_draft now result spec status) h in
      subst (λ d. IsGated spec d.status) made (dry_run_draft-IsGated result passed)
  next-IsGated ref (Call.resolve_approval decision) h =
      let (passed, made) = guarded _ _ _ (approval_draft now decision spec status) h in
      subst (λ d. IsGated spec d.status) made (approval_draft-IsGated decision passed)
  next-IsGated ref (Call.complete result) h =
      let (passed, made) = guarded _ _ _ (execution_draft now result status) h in
      subst (λ d. IsGated spec d.status) made (execution_draft-IsGated result passed)
  next-IsGated ref (Call.cancel req) h =
      let (passed, made) = guarded _ _ _ (cancel_draft now req status) h in
      subst (λ d. IsGated spec d.status) made (cancel_draft-IsGated req)
