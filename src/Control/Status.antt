-- ===== src/Control/Status.antt =====
-- Views of the status of a plan and its nodes, and the approval gate (agentos/control/plan.go).
use go_agent.Prelude.{ℤ, pos, String, Bool, List, [], Option}
use go_agent.Control.Scalar.{Time, Metadata, BackendRef, ArtifactRef}

-- `other` is any string that no constant names, the empty string included.
pub data PlanLifecycle : Type 0 where
  pending running blocked succeeded failed canceled : PlanLifecycle
  other : String → PlanLifecycle

pub data NodeLifecycle : Type 0 where
  pending ready running blocked skipped succeeded failed canceled : NodeLifecycle
  other : String → NodeLifecycle

pub data ApprovalLifecycle : Type 0 where
  pending approved rejected stale : ApprovalLifecycle
  other : String → ApprovalLifecycle

pub record PlanBudgetUsage : Type 0 where
  pub spent_cents : ℤ

pub record PlanNodeStatus : Type 0 where
  pub node_id : String
  pub run_id : String
  pub backend : BackendRef
  pub lifecycle_state : NodeLifecycle
  pub attempts : ℤ
  pub budget_usage : PlanBudgetUsage
  pub reason : String
  pub artifacts : List ArtifactRef
  pub started_at : Time
  pub completed_at : Time
  pub updated_at : Time

pub record PlanApprovalGate : Type 0 where
  pub summary : String
  pub node_ids : List String
  pub risk_reason : String
  pub policy_version : String
  pub requested_at : Time
  pub expires_at : Time

pub record PlanApprovalDecision : Type 0 where
  pub approved : Bool
  pub actor_id : String
  pub reason : String
  pub policy_version : String
  pub decided_at : Time

pub record PlanApprovalStatus : Type 0 where
  pub lifecycle_state : ApprovalLifecycle
  pub gate : PlanApprovalGate
  pub decision : Option PlanApprovalDecision

pub record RunPlanStatus : Type 0 where
  pub plan_id : String
  pub lifecycle_state : PlanLifecycle
  pub nodes : List PlanNodeStatus
  pub active_run_ids : List String
  pub artifacts : List ArtifactRef
  pub reason : String
  pub budget_usage : PlanBudgetUsage
  pub metadata : Metadata
  pub started_at : Time
  pub updated_at : Time
  pub blocked_at : Time
  pub approval : Option PlanApprovalStatus

-- The zero value of a node status, which a read of a missing key gives.
abbrev pub zero_node_status : PlanNodeStatus
zero_node_status = record {
  node_id = "";
  run_id = "";
  backend = record { kind = ""; name = "" };
  lifecycle_state = NodeLifecycle.other "";
  attempts = pos 0;
  budget_usage = record { spent_cents = pos 0 };
  reason = "";
  artifacts = [];
  started_at = 0;
  completed_at = 0;
  updated_at = 0;
}
