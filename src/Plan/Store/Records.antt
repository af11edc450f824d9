-- ===== src/Plan/Store/Records.antt =====
-- The records of the plan store: events, snapshots, commands, audits, checkpoints, and the keys
-- they are stored under (agentos/control/plan.go; internal/usecase/agentosplan/contract.go,
-- metrics.go; plan_store_memory.go, the key types).
use go_agent.Prelude.{ℤ, String, Key, string_key, List, Option, refl}
use go_agent.Prelude.Dict.{Dict}
use go_agent.Prelude.Keys.{pair_key, key_via}
use go_agent.Control.{Time, Value, RunPlanSpec, RunPlanStatus}
use go_agent.Plan.Commands.Status.{PlanCommandStatus, PlanCommandRef}

-- A `map[string]any` that tells nil, `none`, from empty.
abbrev pub Payload : Type 0
Payload = Option (Dict String Value)

-- With the fields of the embedded `core.Event`.
pub record PlanEvent : Type 0 where
  pub event_id : String
  pub event_type : String
  pub run_id : String
  pub process_id : String
  pub thread_id : String
  pub sequence : ℤ
  pub timestamp : Time
  pub source : String
  pub payload : Payload
  pub plan_id : String
  pub account_id : String
  pub project_id : String
  pub node_id : String
  pub external_event_id : String

pub record PlanStateSnapshot : Type 0 where
  pub spec : RunPlanSpec
  pub status : RunPlanStatus

pub record PlanStreamScope : Type 0 where
  pub plan_id : String
  pub account_id : String
  pub project_id : String
  pub node_id : String
  pub run_id : String
  pub after_sequence : ℤ

-- Lifecycle states are kept as text.
pub record PlanRefScope : Type 0 where
  pub account_id : String
  pub project_id : String
  pub lifecycle_states : List String
  pub updated_after : Time
  pub limit : ℤ

pub record AuditRecord : Type 0 where
  pub audit_id : String
  pub plan_id : String
  pub account_id : String
  pub project_id : String
  pub run_id : String
  pub node_id : String
  pub actor_id : String
  pub action : String
  pub idempotency_key : String
  pub payload : Payload
  pub created_at : Time

pub record AuditRef : Type 0 where
  pub plan_id : String
  pub account_id : String
  pub project_id : String
  pub idempotency_key : String

pub record PlanAuditScope : Type 0 where
  pub plan_id : String
  pub account_id : String
  pub project_id : String
  pub node_id : String
  pub run_id : String
  pub action : String
  pub limit : ℤ

pub record PlanCommandRecord : Type 0 where
  pub command_id : String
  pub plan_id : String
  pub account_id : String
  pub project_id : String
  pub actor_id : String
  pub action : String
  pub idempotency_key : String
  pub payload : Payload
  pub status : PlanCommandStatus
  pub failure_reason : String
  pub created_at : Time
  pub updated_at : Time

pub record PlanMetricNodeStartState : Type 0 where
  pub node_id : String
  pub run_id : String
  pub started_at : Time

pub record PlanMetricProjectionState : Type 0 where
  pub plan_started_at : Time
  pub node_started_at : List PlanMetricNodeStartState

pub record PlanMetricCheckpoint : Type 0 where
  pub exporter_id : String
  pub plan_id : String
  pub account_id : String
  pub project_id : String
  pub sequence : ℤ
  pub projection : PlanMetricProjectionState
  pub updated_at : Time

pub record PlanEventIdempotencyKey : Type 0 where
  pub plan_id : String
  pub idempotency_key : String

pub record PlanStartKey : Type 0 where
  pub account_id : String
  pub project_id : String
  pub idempotency_key : String

pub record PlanMetricCheckpointKey : Type 0 where
  pub exporter_id : String
  pub plan_id : String
  pub account_id : String
  pub project_id : String

instance abbrev pub event_key : Key PlanEventIdempotencyKey
event_key =
    key_via {B = String × String} (λ r. (r.plan_id, r.idempotency_key))
      (λ p. record { plan_id = p.0; idempotency_key = p.1 }) (λ r. refl)

instance abbrev pub start_key : Key PlanStartKey
start_key =
    key_via {B = String × (String × String)}
      (λ r. (r.account_id, (r.project_id, r.idempotency_key)))
      (λ p. record { account_id = p.0; project_id = p.1.0; idempotency_key = p.1.1 }) (λ r. refl)

instance abbrev pub checkpoint_key : Key PlanMetricCheckpointKey
checkpoint_key =
    key_via {B = String × (String × (String × String))}
      (λ r. (r.exporter_id, (r.plan_id, (r.account_id, r.project_id))))
      (λ p. record {
        exporter_id = p.0;
        plan_id = p.1.0;
        account_id = p.1.1.0;
        project_id = p.1.1.1;
      })
      (λ r. refl)

instance abbrev pub audit_ref_key : Key AuditRef
audit_ref_key =
    key_via {B = String × (String × (String × String))}
      (λ r. (r.plan_id, (r.account_id, (r.project_id, r.idempotency_key))))
      (λ p. record {
        plan_id = p.0;
        account_id = p.1.0;
        project_id = p.1.1.0;
        idempotency_key = p.1.1.1;
      })
      (λ r. refl)

instance abbrev pub command_ref_key : Key PlanCommandRef
command_ref_key =
    key_via {B = String × (String × (String × String))}
      (λ r. (r.plan_id, (r.account_id, (r.project_id, r.idempotency_key))))
      (λ p. record {
        plan_id = p.0;
        account_id = p.1.0;
        project_id = p.1.1.0;
        idempotency_key = p.1.1.1;
      })
      (λ r. refl)

abbrev pub audit_ref_from_record : AuditRecord → AuditRef
audit_ref_from_record r = record {
  plan_id = r.plan_id;
  account_id = r.account_id;
  project_id = r.project_id;
  idempotency_key = r.idempotency_key;
}

abbrev pub plan_command_ref_from_record : PlanCommandRecord → PlanCommandRef
plan_command_ref_from_record c = record {
  plan_id = c.plan_id;
  account_id = c.account_id;
  project_id = c.project_id;
  idempotency_key = c.idempotency_key;
}
