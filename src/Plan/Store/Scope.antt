-- ===== src/Plan/Store/Scope.antt =====
-- The tenant boundary of stored plans and of their events (internal/usecase/agentosplan/scope.go,
-- `ValidatePlanStreamScope`, `ValidatePlanAuditScope`, `ValidatePlanTenantAccess`,
-- `ScopePlanEventToSpec`). Pointers to scopes, specifications and events are not nil.
use go_agent.Prelude.{
  pos, ltb_ℤ, is_empty, key_eq, string_key, not, ◌&&◌, [], ◌∷◌, Option, none, some, Error, Result,
  ok, err, errorf, err_invalid_plan_scope, err_invalid_plan_event, err_plan_route_not_found,
  first_error, check, if◌then◌else◌,
}
use go_agent.Control.{RunPlanSpec}
use go_agent.Plan.Commands.Status.{PlanRef, validate_plan_ref}
use go_agent.Plan.Validator.Validate.{validate_run_plan_scope}
use go_agent.Plan.Store.Records.{PlanEvent, PlanStreamScope, PlanAuditScope}

abbrev pub stream_ref : PlanStreamScope → PlanRef
stream_ref s = record { plan_id = s.plan_id; account_id = s.account_id; project_id = s.project_id }

abbrev pub audit_scope_ref : PlanAuditScope → PlanRef
audit_scope_ref s = record {
  plan_id = s.plan_id;
  account_id = s.account_id;
  project_id = s.project_id;
}

unfoldable pub validate_plan_stream_scope : PlanStreamScope → Option Error
unfolding validate_plan_ref
validate_plan_stream_scope scope = validate_plan_ref (stream_ref scope)

unfoldable pub validate_plan_audit_scope : PlanAuditScope → Option Error
unfolding validate_plan_ref
validate_plan_audit_scope scope = first_error (validate_plan_ref (audit_scope_ref scope)) (
    if ltb_ℤ scope.limit (pos 0)
    then some (errorf err_invalid_plan_scope "audit limit must be non-negative" [])
    else none)

unfoldable pub validate_plan_tenant_access : PlanRef → RunPlanSpec → Option Error
unfolding validate_plan_ref
validate_plan_tenant_access ref spec = first_error (validate_plan_ref ref) (
    if not (key_eq spec.plan_id ref.plan_id)
    then some (errorf err_plan_route_not_found "%s" (ref.plan_id ∷ []))
    else if not (key_eq spec.account_id ref.account_id)
    then some (errorf err_plan_route_not_found "%s" (ref.plan_id ∷ []))
    else if not (key_eq spec.project_id ref.project_id)
    then some (errorf err_plan_route_not_found "%s" (ref.plan_id ∷ []))
    else none)

unfoldable pub scope_plan_event_to_spec : PlanEvent → RunPlanSpec → Result PlanEvent
unfolding validate_run_plan_scope
scope_plan_event_to_spec event spec = check (validate_run_plan_scope spec) (
    if is_empty event.plan_id
    then err (errorf err_invalid_plan_event "plan id is required" [])
    else if not (key_eq event.plan_id spec.plan_id)
    then err (
        errorf err_invalid_plan_event "event plan %q does not match stored plan %q"
          (event.plan_id ∷ spec.plan_id ∷ []))
    else if not (is_empty event.account_id) && not (key_eq event.account_id spec.account_id)
    then err (
        errorf err_invalid_plan_event "event account %q does not match stored plan account %q"
          (event.account_id ∷ spec.account_id ∷ []))
    else if not (is_empty event.project_id) && not (key_eq event.project_id spec.project_id)
    then err (
        errorf err_invalid_plan_event "event project %q does not match stored plan project %q"
          (event.project_id ∷ spec.project_id ∷ []))
    else ok (record event { account_id = spec.account_id; project_id = spec.project_id }))
