-- ===== src/Ledger/Validate.antt =====
-- The checks of entries and query scopes (agentos/process/ledger.go, and `ValidateResourceRef` of
-- process.go). A specification or a scope is not nil.
use go_agent.Prelude.{
  String, is_empty, not, ◌&&◌, ◌||◌, pos, ltb_ℤ, key_eq, string_key, [], none, some, Option, Error,
  Sentinel, errorf, wrap_as, err_invalid_ledger_entry, err_invalid_ledger_scope,
  err_invalid_resource_ref, first_error, check_all, if◌then◌else◌,
}
use go_agent.Ledger.Records.{ResourceRef, LedgerDataRef, LedgerEntrySpec, LedgerScope}

unfoldable pub validate_resource_ref : ResourceRef → Option Error
validate_resource_ref ref =
    if is_empty ref.kind
    then some (errorf err_invalid_resource_ref "resource kind is required" [])
    else if is_empty ref.resource_id
    then some (errorf err_invalid_resource_ref "resource id is required" [])
    else if is_empty ref.account_id
    then some (errorf err_invalid_resource_ref "account id is required" [])
    else if is_empty ref.project_id
    then some (errorf err_invalid_resource_ref "project id is required" [])
    else none

unfoldable pub validate_ledger_resource : String → String → ResourceRef → Sentinel → Option Error
unfolding validate_resource_ref
validate_ledger_resource account_id project_id resource scope_err =
    if is_empty resource.kind
      && is_empty resource.resource_id
      && is_empty resource.account_id
      && is_empty resource.project_id
    then none
    else elim (validate_resource_ref resource) [
      | some e ↦ some (wrap_as scope_err e)
      | none ↦
          if not (key_eq resource.account_id account_id)
            || not (key_eq resource.project_id project_id)
          then some (errorf scope_err "resource must be in ledger tenant scope" [])
          else none
    ]

unfoldable pub validate_ledger_entry_identity : LedgerEntrySpec → Option Error
validate_ledger_entry_identity spec =
    if is_empty spec.entry_id
    then some (errorf err_invalid_ledger_entry "entry id is required" [])
    else if is_empty spec.idempotency_key
    then some (errorf err_invalid_ledger_entry "idempotency key is required" [])
    else if is_empty spec.account_id
    then some (errorf err_invalid_ledger_entry "account id is required" [])
    else if is_empty spec.project_id
    then some (errorf err_invalid_ledger_entry "project id is required" [])
    else if is_empty spec.kind
    then some (errorf err_invalid_ledger_entry "kind is required" [])
    else none

unfoldable pub validate_ledger_entry_scope : LedgerEntrySpec → Option Error
unfolding validate_ledger_resource
validate_ledger_entry_scope spec =
    first_error
      (validate_ledger_resource spec.account_id spec.project_id spec.resource
        err_invalid_ledger_entry)
      (if is_empty spec.process_id && is_empty spec.resource.kind
        then some (errorf err_invalid_ledger_entry "process id or resource ref is required" [])
        else none)

unfoldable pub validate_ledger_data_ref : LedgerDataRef → Option Error
validate_ledger_data_ref ref =
    if is_empty ref.kind
    then some (errorf err_invalid_ledger_entry "data ref kind is required" [])
    else if is_empty ref.uri && is_empty ref.artifact_id
    then some (errorf err_invalid_ledger_entry "data ref uri or artifact id is required" [])
    else none

unfoldable pub validate_ledger_entry_spec : LedgerEntrySpec → Option Error
unfolding validate_ledger_entry_identity validate_ledger_entry_scope validate_ledger_data_ref
validate_ledger_entry_spec spec = first_error (validate_ledger_entry_identity spec) (
    first_error (validate_ledger_entry_scope spec)
      (check_all validate_ledger_data_ref spec.data_refs))

unfoldable pub validate_ledger_scope : LedgerScope → Option Error
unfolding validate_ledger_resource
validate_ledger_scope scope =
    if is_empty scope.account_id
    then some (errorf err_invalid_ledger_scope "account id is required" [])
    else if is_empty scope.project_id
    then some (errorf err_invalid_ledger_scope "project id is required" [])
    else if ltb_ℤ scope.limit (pos 0)
    then some (errorf err_invalid_ledger_scope "limit must be non-negative" [])
    else validate_ledger_resource scope.account_id scope.project_id scope.resource
        err_invalid_ledger_scope
