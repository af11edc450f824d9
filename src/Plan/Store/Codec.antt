-- ===== src/Plan/Store/Codec.antt =====
-- The JSON and SHA-256 identities by which the store recognises a repeated request
-- (internal/usecase/agentosplan/idempotency.go, the `Fields` types and their builders, `jsonKey`,
-- `NewPlanTransitionSnapshotIdentity`, `AuditIDFromRef`, `PlanCommandIDFromRef`).
use go_agent.Prelude.{
  String, is_empty, string_key, [], none, some, Error, Result, ok, err, errorf,
  err_invalid_run_plan, ◌>>=◌, if◌then◌else◌,
}
use go_agent.Prelude.Dict.{Dict}
use go_agent.Prelude.Decimal.{◌+++◌}
use go_agent.Control.{
  Time, Value, Metadata, RunPlanSpec, RunPlanStatus, PlanPolicy, PlanNodeSpec, PlanEdgeSpec,
}
use go_agent.Plan.Commands.Status.{PlanCommandRef}
use go_agent.Plan.Store.Records.{Payload, PlanEvent, PlanStateSnapshot, AuditRef}

pub record PlanTransitionIdempotencyFields : Type 0 where
  pub spec : RunPlanSpec
  pub status : RunPlanStatus
  pub idempotency_key : String

pub record PlanStateIdentityFields : Type 0 where
  pub plan_id : String
  pub thread_id : String
  pub account_id : String
  pub project_id : String
  pub idempotency_key : String
  pub requested_at : Time
  pub inputs : Dict String Value
  pub metadata : Metadata
  pub policy : PlanPolicy

pub record PlanEventIdempotencyFields : Type 0 where
  pub plan_id : String
  pub account_id : String
  pub project_id : String
  pub node_id : String
  pub run_id : String
  pub thread_id : String
  pub event_type : String
  pub source : String
  pub external_event_id : String
  pub payload : Dict String Value

-- `json.Marshal` at the types that the store passes to it, the four fields of a reference in their
-- order, and the lower-case hexadecimal of `sha256.Sum256`. An error of `json.Marshal` is `err`.
pub record Codec : Type 0 where
  pub marshal_spec : RunPlanSpec → Result String
  pub marshal_state_identity : PlanStateIdentityFields → Result String
  pub marshal_transition : PlanTransitionIdempotencyFields → Result String
  pub marshal_event_identity : PlanEventIdempotencyFields → Result String
  pub marshal_node : PlanNodeSpec → Result String
  pub marshal_edge : PlanEdgeSpec → Result String
  pub marshal_payload : Dict String Value → Result String
  pub marshal_ref : String → String → String → String → Result String
  pub sha256_hex : String → String

-- The bytes of a value, behind the message of the caller; the cause of the error is left out.
abbrev pub or_message : Error → Result String → Result String
or_message e (ok bytes) = ok bytes
or_message e (err cause) = err e

-- `normalizeAuditPayload` and `normalizeEventPayload`.
abbrev pub normalize_payload : Payload → Dict String Value
normalize_payload none = []
normalize_payload (some payload) = payload

abbrev pub plan_state_identity : RunPlanSpec → PlanStateIdentityFields
plan_state_identity spec = record {
  plan_id = spec.plan_id;
  thread_id = spec.thread_id;
  account_id = spec.account_id;
  project_id = spec.project_id;
  idempotency_key = spec.idempotency_key;
  requested_at = spec.requested_at;
  inputs = spec.inputs;
  metadata = spec.metadata;
  policy = spec.policy;
}

abbrev pub plan_event_idempotency_identity : PlanEvent → PlanEventIdempotencyFields
plan_event_idempotency_identity event = record {
  plan_id = event.plan_id;
  account_id = event.account_id;
  project_id = event.project_id;
  node_id = event.node_id;
  run_id = event.run_id;
  thread_id = event.thread_id;
  event_type = event.event_type;
  source = event.source;
  external_event_id = event.external_event_id;
  payload = normalize_payload event.payload;
}

-- `jsonKey`: a value that does not marshal has the empty key.
abbrev pub json_key : Result String → String
json_key (ok bytes) = bytes
json_key (err cause) = ""

module _ (codec : Codec) where
  -- The digest of `NewPlanTransitionSnapshotIdentity`.
  unfoldable pub new_plan_transition_snapshot_identity : PlanStateSnapshot → String → Result String
  new_plan_transition_snapshot_identity snapshot idempotency_key =
      if is_empty idempotency_key
      then err (errorf err_invalid_run_plan "transition idempotency key is required" [])
      else do
        json ← or_message (errorf err_invalid_run_plan "marshal plan transition identity: %w" []) (
            codec.marshal_transition (record {
              spec = snapshot.spec;
              status = snapshot.status;
              idempotency_key = idempotency_key;
            }))
        ok ("sha256:" +++ codec.sha256_hex json)

  id_from : String → Result String → String
  id_from prefix (ok json) = prefix +++ codec.sha256_hex json
  id_from prefix (err cause) = ""

  unfoldable pub plan_command_id_from_ref : PlanCommandRef → String
  unfolding id_from
  plan_command_id_from_ref ref =
      id_from "command:"
        (codec.marshal_ref ref.plan_id ref.account_id ref.project_id ref.idempotency_key)

  unfoldable pub audit_id_from_ref : AuditRef → String
  unfolding id_from
  audit_id_from_ref ref =
      id_from "audit:"
        (codec.marshal_ref ref.plan_id ref.account_id ref.project_id ref.idempotency_key)
