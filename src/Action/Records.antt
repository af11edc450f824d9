-- ===== src/Action/Records.antt =====
-- The contracts of governed actions (agentos/process/action.go), and the keys of their store.
use go_agent.Prelude.{ℤ, String, Bool, Key, string_key, List, Option, refl}
use go_agent.Prelude.Keys.{pair_key, key_via}
use go_agent.Control.{Time, Metadata, ArtifactRef}
use go_agent.Ledger.Records.{ResourceRef, ActorRef, LedgerDataRef}

pub record ActionRef : Type 0 where
  pub action_id : String
  pub account_id : String
  pub project_id : String

-- `ActionKind` and `ActionRiskLevel` are texts.
pub record ActionRiskAssessment : Type 0 where
  pub level : String
  pub reason : String
  pub evidence_refs : List LedgerDataRef
  pub assessed_at : Time

pub record GovernedActionSpec : Type 0 where
  pub action_id : String
  pub idempotency_key : String
  pub account_id : String
  pub project_id : String
  pub process_id : String
  pub resource : ResourceRef
  pub kind : String
  pub intent : String
  pub requested_by : ActorRef
  pub requested_at : Time
  pub dry_run_required : Bool
  pub approval_required : Bool
  pub risk : ActionRiskAssessment
  pub input_refs : List LedgerDataRef
  pub compensation_ref : Option LedgerDataRef
  pub metadata : Metadata

pub record GovernedActionStatus : Type 0 where
  pub action_id : String
  pub account_id : String
  pub project_id : String
  pub process_id : String
  pub resource : ResourceRef
  pub kind : String
  pub lifecycle_state : String
  pub dry_run_state : String
  pub approval_state : String
  pub execution_state : String
  pub risk : ActionRiskAssessment
  pub reason : String
  pub updated_at : Time

pub record ActionDryRunResult : Type 0 where
  pub idempotency_key : String
  pub succeeded : Bool
  pub summary : String
  pub risk : ActionRiskAssessment
  pub output_refs : List LedgerDataRef
  pub recorded_at : Time

pub record ActionApprovalDecision : Type 0 where
  pub idempotency_key : String
  pub approved : Bool
  pub actor : ActorRef
  pub reason : String
  pub decided_at : Time

pub record ActionExecutionResult : Type 0 where
  pub idempotency_key : String
  pub succeeded : Bool
  pub summary : String
  pub output_refs : List LedgerDataRef
  pub artifact_refs : List ArtifactRef
  pub recorded_at : Time

pub record ActionCancelRequest : Type 0 where
  pub idempotency_key : String
  pub actor : ActorRef
  pub reason : String
  pub requested_at : Time

pub record ActionScope : Type 0 where
  pub account_id : String
  pub project_id : String
  pub process_id : String
  pub resource : ResourceRef
  pub kind : String
  pub lifecycle_state : String
  pub limit : ℤ

-- The states of an action and of its gates.
abbrev pub action_waiting_dry_run : String
action_waiting_dry_run = "waiting_dry_run"

abbrev pub action_waiting_approval : String
action_waiting_approval = "waiting_approval"

abbrev pub action_ready : String
action_ready = "ready"

abbrev pub action_executing : String
action_executing = "executing"

abbrev pub action_executed : String
action_executed = "executed"

abbrev pub action_failed : String
action_failed = "failed"

abbrev pub action_canceled : String
action_canceled = "canceled"

-- The states of the dry run, the approval and the execution share these words.
abbrev pub gate_pending : String
gate_pending = "pending"

abbrev pub gate_succeeded : String
gate_succeeded = "succeeded"

abbrev pub gate_failed : String
gate_failed = "failed"

abbrev pub gate_approved : String
gate_approved = "approved"

abbrev pub gate_rejected : String
gate_rejected = "rejected"

pub record ActionStartKey : Type 0 where
  pub account_id : String
  pub project_id : String
  pub idempotency_key : String

pub record ActionStatusKey : Type 0 where
  pub action_id : String
  pub idempotency_key : String

instance abbrev pub action_start_key : Key ActionStartKey
action_start_key =
    key_via {B = String × (String × String)}
      (λ r. (r.account_id, (r.project_id, r.idempotency_key)))
      (λ p. record { account_id = p.0; project_id = p.1.0; idempotency_key = p.1.1 }) (λ r. refl)

instance abbrev pub action_status_key : Key ActionStatusKey
action_status_key =
    key_via {B = String × String} (λ r. (r.action_id, r.idempotency_key))
      (λ p. record { action_id = p.0; idempotency_key = p.1 }) (λ r. refl)
