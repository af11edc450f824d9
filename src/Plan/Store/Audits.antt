-- ===== src/Plan/Store/Audits.antt =====
-- The audit trail of a plan (internal/usecase/agentosplan/audit.go; commands.go,
-- `ValidateAuditRef`; plan_store_memory.go, `RecordAudit`, `GetAuditRecord`, `ListAuditRecords`).
-- Records and scopes are not nil.
use go_agent.Prelude.{
  ℤ, pos, ltb_ℤ, pos_part, ◌==◌, ltb, String, is_empty, Bool, true, false, not, ◌&&◌, ◌||◌, key_eq,
  string_key, str_leb, List, [], ◌∷◌, map, take, select, length, Option, none, some, Error, Result,
  ok, err, errorf, err_invalid_run_plan, err_plan_route_not_found, first_error, check,
  if◌then◌else◌,
}
use go_agent.Prelude.Dict.{Dict, get, get_or, put}
use go_agent.Prelude.Sort.{sort_by}
use go_agent.Control.{Time, RunPlanSpec, RunPlanStatus, PlanNodeSpec, PlanNodeStatus}
use go_agent.Plan.Commands.Status.{validate_plan_ref}
use go_agent.Plan.Store.Records.{
  AuditRecord, AuditRef, PlanAuditScope, audit_ref_key, audit_ref_from_record,
}
use go_agent.Plan.Store.Scope.{
  audit_scope_ref, validate_plan_audit_scope, validate_plan_tenant_access,
}
use go_agent.Plan.Store.Codec.{Codec, audit_id_from_ref, normalize_payload}
use go_agent.Plan.Store.Envelopes.{validate_audit_idempotency}
use go_agent.Plan.Store.State.{MemoryPlanStore, Call, or_fail, zero_status}

unfoldable pub validate_audit_node_run_pair : AuditRecord → Option Error
validate_audit_node_run_pair audit =
    if is_empty audit.node_id && is_empty audit.run_id
    then none
    else if is_empty audit.node_id || is_empty audit.run_id
    then some (errorf err_invalid_run_plan "audit node id and run id must be provided together" [])
    else none

-- The run of the first node of the identifier.
abbrev pub status_run_id : String → List PlanNodeStatus → Option String
status_run_id node_id [] = none
status_run_id node_id (node ∷ nodes) =
    if key_eq node.node_id node_id then some node.run_id else status_run_id node_id nodes

abbrev pub spec_run_id : String → List PlanNodeSpec → Option String
spec_run_id node_id [] = none
spec_run_id node_id (node ∷ nodes) =
    if key_eq node.node_id node_id then some node.run.run_id else spec_run_id node_id nodes

unfoldable pub audit_plan_node_run_id : RunPlanSpec → RunPlanStatus → String → Option String
audit_plan_node_run_id spec status node_id = elim status.nodes [
  | [] ↦ spec_run_id node_id spec.nodes
  | node ∷ nodes ↦ status_run_id node_id (node ∷ nodes)
]

unfoldable pub validate_audit_node_run_in_plan :
    AuditRecord → RunPlanSpec → RunPlanStatus → Option Error
unfolding validate_audit_node_run_pair audit_plan_node_run_id
validate_audit_node_run_in_plan audit spec status =
    first_error (validate_audit_node_run_pair audit) (
      if is_empty audit.node_id
      then none
      else elim (audit_plan_node_run_id spec status audit.node_id) [
        | none ↦
            some (errorf err_invalid_run_plan "audit node %q is not durable" (audit.node_id ∷ []))
        | some run_id ↦
            if is_empty run_id
            then some (
                errorf err_invalid_run_plan "audit node %q has no durable run id"
                  (audit.node_id ∷ []))
            else if not (key_eq run_id audit.run_id)
            then some (
                errorf err_invalid_run_plan "audit node %q has durable run id %q, got %q"
                  (audit.node_id ∷ run_id ∷ audit.run_id ∷ []))
            else none
      ])

unfoldable pub validate_audit_ref : AuditRef → Option Error
unfolding validate_plan_ref
validate_audit_ref ref =
    first_error
      (validate_plan_ref (record {
        plan_id = ref.plan_id;
        account_id = ref.account_id;
        project_id = ref.project_id;
      }))
      (if is_empty ref.idempotency_key
        then some (errorf err_invalid_run_plan "audit idempotency key is required" [])
        else none)

unfoldable pub validate_memory_audit_record : AuditRecord → Option Error
validate_memory_audit_record audit =
    if is_empty audit.plan_id
    then some (errorf err_invalid_run_plan "%s is required" ("plan id" ∷ []))
    else if is_empty audit.action
    then some (errorf err_invalid_run_plan "%s is required" ("audit action" ∷ []))
    else if is_empty audit.idempotency_key
    then some (errorf err_invalid_run_plan "%s is required" ("audit idempotency key" ∷ []))
    else none

module _ (codec : Codec) where
  unfoldable pub prepare_memory_audit_record : Time → AuditRecord → AuditRef → AuditRecord
  unfolding audit_id_from_ref
  prepare_memory_audit_record now audit ref = record audit {
    audit_id = if is_empty audit.audit_id then audit_id_from_ref codec ref else audit.audit_id;
    created_at = if audit.created_at == 0 then now else audit.created_at;
    payload = some (normalize_payload audit.payload);
  }

  -- `RecordAudit` once the plan is found, with the plan's scope in the record.
  unfoldable pub record_scoped_audit : Time → RunPlanSpec → AuditRecord → Call (AuditRecord × Bool)
  unfolding get get_or put validate_audit_idempotency validate_audit_node_run_in_plan
      prepare_memory_audit_record
  record_scoped_audit now spec audit s =
      let ref = audit_ref_from_record audit in
      elim (get ref s.audit_keys) [
        | some existing ↦
            (check (validate_audit_idempotency codec existing audit) (ok (existing, false)), s)
        | none ↦
            let stored = prepare_memory_audit_record now audit ref in
            or_fail
              (validate_audit_node_run_in_plan audit spec
                (get_or zero_status audit.plan_id s.statuses))
              (λ t. (ok (stored, true), record t { audit_keys = put ref stored t.audit_keys })) s
      ]

  -- `RecordAudit` under the lock.
  unfoldable pub record_audit_locked : Time → AuditRecord → Call (AuditRecord × Bool)
  unfolding get record_scoped_audit
  record_audit_locked now audit s = elim (get audit.plan_id s.specs) [
    | none ↦ (err (errorf err_plan_route_not_found "%s" (audit.plan_id ∷ [])), s)
    | some spec ↦
        record_scoped_audit now spec
          (record audit { account_id = spec.account_id; project_id = spec.project_id }) s
  ]

  unfoldable pub record_audit : Time → AuditRecord → Call (AuditRecord × Bool)
  unfolding validate_memory_audit_record record_audit_locked
  record_audit now audit =
      or_fail (validate_memory_audit_record audit) (record_audit_locked now audit)

unfoldable pub get_audit_record : AuditRef → MemoryPlanStore → Result (Option AuditRecord)
unfolding validate_audit_ref get
get_audit_record ref s = check (validate_audit_ref ref) (ok (get ref s.audit_keys))

unfoldable pub memory_audit_record_matches_scope : PlanAuditScope → AuditRecord → Bool
memory_audit_record_matches_scope scope audit =
    if not (key_eq audit.plan_id scope.plan_id)
    then false
    else if not (is_empty scope.node_id) && not (key_eq audit.node_id scope.node_id)
    then false
    else if not (is_empty scope.run_id) && not (key_eq audit.run_id scope.run_id)
    then false
    else is_empty scope.action || key_eq audit.action scope.action

abbrev pub audit_leb : AuditRecord → AuditRecord → Bool
audit_leb a b =
    if a.created_at == b.created_at
    then str_leb a.audit_id b.audit_id
    else ltb a.created_at b.created_at

abbrev pub map_values : {K V : Type 0} → Dict K V → List V
map_values [] = []
map_values ((k, v) ∷ d) = v ∷ map_values d

-- A limit of 0 is none.
abbrev pub at_most {ℓ} : {A : Type ℓ} → ℤ → List A → List A
at_most limit xs =
    if ltb_ℤ (pos 0) limit && ltb_ℤ limit (pos (length xs)) then take (pos_part limit) xs else xs

-- The public record has the fields of the stored one, and a payload that is not nil.
abbrev pub plan_audit_record_from_audit_record : AuditRecord → AuditRecord
plan_audit_record_from_audit_record audit = record audit {
  payload = some (normalize_payload audit.payload);
}

-- Records of one time and one identifier stand in the order of the map, which Go leaves open.
unfoldable pub list_audit_records : PlanAuditScope → MemoryPlanStore → Result (List AuditRecord)
unfolding validate_plan_audit_scope get validate_plan_tenant_access
    memory_audit_record_matches_scope sort_by
list_audit_records scope s =
    check (validate_plan_audit_scope scope) (elim (get scope.plan_id s.specs) [
      | none ↦ err (errorf err_plan_route_not_found "%s" (scope.plan_id ∷ []))
      | some spec ↦ check (validate_plan_tenant_access (audit_scope_ref scope) spec) (
          ok (
            map plan_audit_record_from_audit_record (
              at_most scope.limit (
                sort_by audit_leb
                  (select (memory_audit_record_matches_scope scope) (map_values s.audit_keys))))))
    ])
