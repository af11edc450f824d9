-- ===== src/Plan/Store/Outbox.antt =====
-- The command outbox of a plan (internal/usecase/agentosplan/plan_store_memory.go,
-- `RecordPlanCommand` to `MarkPlanCommandFailed`; commands.go, `AuditRecordFromPlanCommand`,
-- `ValidatePlanCommandDeliveredAudit`). Records and scopes are not nil.
use go_agent.Prelude.{
  ◌==◌, ltb, String, is_empty, Bool, true, false, not, ◌&&◌, key_eq, string_key, str_leb, List, [],
  ◌∷◌, select, Option, none, some, Error, Result, ok, err, errorf, err_invalid_run_plan,
  err_plan_route_not_found, first_error, check, if◌then◌else◌,
}
use go_agent.Prelude.Dict.{get, put}
use go_agent.Prelude.Members.{contains}
use go_agent.Prelude.Sort.{sort_by}
use go_agent.Control.{Time}
use go_agent.Plan.Commands.Status.{
  PlanCommandStatus, PlanCommandRef, PlanCommandScope, status_key, same_status,
  recoverable_plan_command_statuses, normalize_new_plan_command_status,
  validate_plan_command_status_transition, validate_plan_command_ref,
}
use go_agent.Plan.Store.Records.{
  AuditRecord, PlanCommandRecord, audit_ref_key, command_ref_key, audit_ref_from_record,
  plan_command_ref_from_record,
}
use go_agent.Plan.Store.Codec.{Codec, plan_command_id_from_ref, normalize_payload}
use go_agent.Plan.Store.Envelopes.{validate_audit_idempotency, validate_plan_command_idempotency}
use go_agent.Plan.Store.State.{MemoryPlanStore, Call, or_fail}
use go_agent.Plan.Store.Audits.{map_values, at_most}

unfoldable pub validate_memory_plan_command_record : PlanCommandRecord → Option Error
validate_memory_plan_command_record command =
    if is_empty command.plan_id
    then some (errorf err_invalid_run_plan "%s is required" ("plan id" ∷ []))
    else if is_empty command.action
    then some (errorf err_invalid_run_plan "%s is required" ("command action" ∷ []))
    else if is_empty command.idempotency_key
    then some (errorf err_invalid_run_plan "%s is required" ("command idempotency key" ∷ []))
    else none

abbrev pub audit_record_from_plan_command : PlanCommandRecord → AuditRecord
audit_record_from_plan_command command = record {
  audit_id = "";
  plan_id = command.plan_id;
  account_id = command.account_id;
  project_id = command.project_id;
  run_id = "";
  node_id = "";
  actor_id = command.actor_id;
  action = command.action;
  idempotency_key = command.idempotency_key;
  payload = command.payload;
  created_at = 0;
}

-- What the store fills in of a new command, with its status.
unfoldable pub filled_command :
    Codec → Time → PlanCommandStatus → PlanCommandRecord → PlanCommandRecord
unfolding plan_command_id_from_ref
filled_command codec now status command =
    let created = if command.created_at == 0 then now else command.created_at in
    record command {
      command_id =
          if is_empty command.command_id
          then plan_command_id_from_ref codec (plan_command_ref_from_record command)
          else command.command_id;
      status = status;
      created_at = created;
      updated_at = if command.updated_at == 0 then created else command.updated_at;
      payload = some (normalize_payload command.payload);
    }

abbrev pub or_status :
    Result PlanCommandStatus → (PlanCommandStatus → PlanCommandRecord) → Result PlanCommandRecord
or_status (ok status) f = ok (f status)
or_status (err e) f = err e

module _ (codec : Codec) where
  unfoldable pub validate_plan_command_delivered_audit :
      PlanCommandRecord → AuditRecord → Option Error
  unfolding validate_audit_idempotency
  validate_plan_command_delivered_audit command audit =
      validate_audit_idempotency codec audit (audit_record_from_plan_command command)

  unfoldable pub prepare_memory_plan_command_record :
      Time → PlanCommandRecord → Result PlanCommandRecord
  unfolding normalize_new_plan_command_status filled_command
  prepare_memory_plan_command_record now command =
      or_status (normalize_new_plan_command_status command.status)
        (λ status. filled_command codec now status command)

  -- `RecordPlanCommand` once the plan is found, with the plan's scope in the record.
  unfoldable pub record_scoped_command : Time → PlanCommandRecord → Call (PlanCommandRecord × Bool)
  unfolding get put validate_plan_command_idempotency prepare_memory_plan_command_record
  record_scoped_command now command s =
      elim (get (plan_command_ref_from_record command) s.commands) [
        | some existing ↦ (
          check (validate_plan_command_idempotency codec existing command) (ok (existing, false)),
          s,
        )
        | none ↦ elim (prepare_memory_plan_command_record now command) [
          | err e ↦ (err e, s)
          | ok stored ↦ (
            ok (stored, true),
            record s { commands = put (plan_command_ref_from_record command) stored s.commands },
          )
        ]
      ]

  -- `RecordPlanCommand` under the lock.
  unfoldable pub record_plan_command_locked :
      Time → PlanCommandRecord → Call (PlanCommandRecord × Bool)
  unfolding get record_scoped_command
  record_plan_command_locked now command s = elim (get command.plan_id s.specs) [
    | none ↦ (err (errorf err_plan_route_not_found "%s" (command.plan_id ∷ [])), s)
    | some spec ↦
        record_scoped_command now
          (record command { account_id = spec.account_id; project_id = spec.project_id }) s
  ]

  unfoldable pub record_plan_command : Time → PlanCommandRecord → Call (PlanCommandRecord × Bool)
  unfolding validate_memory_plan_command_record record_plan_command_locked
  record_plan_command now command =
      or_fail (validate_memory_plan_command_record command) (record_plan_command_locked now command)

  -- A command is delivered only when its audit record is stored and agrees with it.
  unfoldable pub check_delivered :
      PlanCommandRef → PlanCommandStatus → PlanCommandRecord → MemoryPlanStore → Option Error
  unfolding get validate_plan_command_delivered_audit
  check_delivered ref status command s =
      if same_status status PlanCommandStatus.delivered
      then elim (get (audit_ref_from_record (audit_record_from_plan_command command))
          s.audit_keys) [
            | none ↦ some (
                errorf err_invalid_run_plan "delivered command requires durable audit %q"
                  (ref.idempotency_key ∷ []))
            | some audit ↦ validate_plan_command_delivered_audit command audit
          ]
      else none

  -- The move of a command that is stored.
  unfoldable pub move_command :
      Time
      → PlanCommandRef
      → PlanCommandStatus
      → String
      → PlanCommandRecord
      → Call PlanCommandRecord
  unfolding put validate_plan_command_status_transition check_delivered
  move_command now ref status reason command s =
      let next = record command { status = status; failure_reason = reason; updated_at = now } in
      elim (first_error (validate_plan_command_status_transition command.status status)
        (check_delivered ref status command s)) [
          | some e ↦ (err e, s)
          | none ↦ (ok next, record s { commands = put ref next s.commands })
        ]

  unfoldable pub update_plan_command_status_locked :
      Time → PlanCommandRef → PlanCommandStatus → String → Call PlanCommandRecord
  unfolding get move_command
  update_plan_command_status_locked now ref status reason s = elim (get ref s.commands) [
    | none ↦ (err (errorf err_invalid_run_plan "command %q" (ref.idempotency_key ∷ [])), s)
    | some command ↦ move_command now ref status reason command s
  ]

  unfoldable pub update_plan_command_status :
      Time → PlanCommandRef → PlanCommandStatus → String → Call PlanCommandRecord
  unfolding validate_plan_command_ref update_plan_command_status_locked
  update_plan_command_status now ref status reason =
      or_fail (validate_plan_command_ref ref)
        (update_plan_command_status_locked now ref status reason)

  unfoldable pub mark_plan_command_delivered : Time → PlanCommandRef → Call PlanCommandRecord
  unfolding update_plan_command_status
  mark_plan_command_delivered now ref =
      update_plan_command_status now ref PlanCommandStatus.delivered ""

  unfoldable pub mark_plan_command_failed : Time → PlanCommandRef → String → Call PlanCommandRecord
  unfolding update_plan_command_status
  mark_plan_command_failed now ref reason =
      update_plan_command_status now ref PlanCommandStatus.failed reason

unfoldable pub get_plan_command :
    PlanCommandRef → MemoryPlanStore → Result (Option PlanCommandRecord)
unfolding validate_plan_command_ref get
get_plan_command ref s = check (validate_plan_command_ref ref) (ok (get ref s.commands))

unfoldable pub memory_plan_command_matches_scope :
    PlanCommandScope → List PlanCommandStatus → PlanCommandRecord → Bool
unfolding contains
memory_plan_command_matches_scope scope statuses command =
    if not (is_empty scope.plan_id) && not (key_eq command.plan_id scope.plan_id)
    then false
    else if not (is_empty scope.account_id) && not (key_eq command.account_id scope.account_id)
    then false
    else if not (is_empty scope.project_id) && not (key_eq command.project_id scope.project_id)
    then false
    else if not (is_empty scope.action) && not (key_eq command.action scope.action)
    then false
    else contains command.status statuses

abbrev pub command_leb : PlanCommandRecord → PlanCommandRecord → Bool
command_leb a b =
    if not (a.updated_at == b.updated_at)
    then ltb a.updated_at b.updated_at
    else str_leb a.command_id b.command_id

-- Commands of one time and one identifier stand in the order of the map, which Go leaves open.
unfoldable pub list_recoverable_plan_commands :
    PlanCommandScope → MemoryPlanStore → Result (List PlanCommandRecord)
unfolding recoverable_plan_command_statuses memory_plan_command_matches_scope sort_by
list_recoverable_plan_commands scope s = elim (recoverable_plan_command_statuses scope) [
  | err e ↦ err e
  | ok statuses ↦ ok (
      at_most scope.limit (
        sort_by command_leb
          (select (memory_plan_command_matches_scope scope statuses) (map_values s.commands))))
]
