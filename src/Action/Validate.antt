-- ===== src/Action/Validate.antt =====
-- The checks of requests, references and query scopes (agentos/process/action.go). A pointer that
-- is checked for nil is not nil.
use go_agent.Prelude.{
  String, is_empty, not, ◌&&◌, ◌||◌, pos, ltb_ℤ, key_eq, string_key, List, [], none, some, Option,
  Error, Sentinel, errorf, wrap_as, err_invalid_governed_action, err_invalid_governed_action_scope,
  first_error, check_all, if◌then◌else◌,
}
use go_agent.Ledger.Records.{ResourceRef, LedgerDataRef}
use go_agent.Ledger.Validate.{validate_resource_ref}
use go_agent.Action.Records.{ActionRef, ActionScope, GovernedActionSpec}

unfoldable pub validate_governed_action_resource :
    String → String → ResourceRef → Sentinel → Option Error
unfolding validate_resource_ref
validate_governed_action_resource account_id project_id resource scope_err =
    if is_empty resource.kind
      && is_empty resource.resource_id
      && is_empty resource.account_id
      && is_empty resource.project_id
    then none
    else elim (validate_resource_ref resource) [
      | some e ↦ some (wrap_as scope_err e)
      | none ↦
          if not (key_eq resource.account_id account_id)
            || not (key_eq resource.project_id project_id)
          then some (errorf scope_err "resource must be in action tenant scope" [])
          else none
    ]

unfoldable pub validate_governed_action_scope :
    String → String → String → ResourceRef → Sentinel → Option Error
unfolding validate_governed_action_resource
validate_governed_action_scope account_id project_id process_id resource scope_err =
    if is_empty process_id && is_empty resource.kind
    then some (errorf scope_err "process id or resource ref is required" [])
    else validate_governed_action_resource account_id project_id resource scope_err

unfoldable pub validate_action_data_ref : LedgerDataRef → Option Error
validate_action_data_ref ref =
    if is_empty ref.kind
    then some (errorf err_invalid_governed_action "data ref kind is required" [])
    else if is_empty ref.uri && is_empty ref.artifact_id
    then some (errorf err_invalid_governed_action "data ref uri or artifact id is required" [])
    else none

optional_ref : Option LedgerDataRef → Option Error
unfolding validate_action_data_ref
optional_ref none = none
optional_ref (some ref) = validate_action_data_ref ref

unfoldable pub validate_action_refs :
    List LedgerDataRef → Option LedgerDataRef → List LedgerDataRef → Option Error
unfolding validate_action_data_ref optional_ref
validate_action_refs refs optional more =
    first_error (check_all validate_action_data_ref refs)
      (first_error (optional_ref optional) (check_all validate_action_data_ref more))

unfoldable pub validate_governed_action_identity : GovernedActionSpec → Option Error
validate_governed_action_identity spec =
    if is_empty spec.action_id
    then some (errorf err_invalid_governed_action "action id is required" [])
    else if is_empty spec.idempotency_key
    then some (errorf err_invalid_governed_action "idempotency key is required" [])
    else if is_empty spec.account_id
    then some (errorf err_invalid_governed_action "account id is required" [])
    else if is_empty spec.project_id
    then some (errorf err_invalid_governed_action "project id is required" [])
    else if is_empty spec.kind
    then some (errorf err_invalid_governed_action "kind is required" [])
    else none

unfoldable pub validate_governed_action_spec : GovernedActionSpec → Option Error
unfolding validate_governed_action_identity validate_governed_action_scope validate_action_refs
validate_governed_action_spec spec = first_error (validate_governed_action_identity spec) (
    first_error
      (validate_governed_action_scope spec.account_id spec.project_id spec.process_id spec.resource
        err_invalid_governed_action)
      (validate_action_refs spec.input_refs spec.compensation_ref spec.risk.evidence_refs))

unfoldable pub validate_action_ref : ActionRef → Option Error
validate_action_ref ref =
    if is_empty ref.action_id
    then some (errorf err_invalid_governed_action_scope "action id is required" [])
    else if is_empty ref.account_id
    then some (errorf err_invalid_governed_action_scope "account id is required" [])
    else if is_empty ref.project_id
    then some (errorf err_invalid_governed_action_scope "project id is required" [])
    else none

unfoldable pub validate_action_scope : ActionScope → Option Error
unfolding validate_governed_action_resource
validate_action_scope scope =
    if is_empty scope.account_id
    then some (errorf err_invalid_governed_action_scope "account id is required" [])
    else if is_empty scope.project_id
    then some (errorf err_invalid_governed_action_scope "project id is required" [])
    else if ltb_ℤ scope.limit (pos 0)
    then some (errorf err_invalid_governed_action_scope "limit must be non-negative" [])
    else validate_governed_action_resource scope.account_id scope.project_id scope.resource
        err_invalid_governed_action_scope
