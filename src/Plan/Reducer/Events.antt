-- ===== src/Plan/Reducer/Events.antt =====
-- The events of the reducer (internal/usecase/agentosplan/state.go, `EventKind`, `StateEvent`), and
-- the tables that sort their kinds. The fields that `Apply` never reads are left out: `InputTrace`,
-- `Capability`, `ConditionTraces`, `PreviousLifecycleState` and `NextLifecycleState`.
use go_agent.Prelude.{ℤ, String, Bool, true, false, List, Option, none, some}
use go_agent.Control.{
  Time, ArtifactRef, PlanDeltaSpec, PlanBudgetUsage, PlanApprovalGate, PlanApprovalDecision,
  PlanLifecycle, NodeLifecycle,
}

-- `other` is any string that no constant names.
pub data EventKind : Type 0 where
  plan_started plan_blocked plan_expanded plan_approved plan_rejected : EventKind
  plan_succeeded plan_failed plan_canceled : EventKind
  node_ready node_started node_succeeded node_failed node_retry_scheduled : EventKind
  node_skipped node_canceled node_input_resolved : EventKind
  capability_selected conditions_evaluated artifacts_published budget_reported : EventKind
  other : String → EventKind

-- The string of each constant.
abbrev pub event_kind_text : EventKind → String
event_kind_text plan_started = "plan.started"
event_kind_text plan_blocked = "plan.blocked"
event_kind_text plan_expanded = "plan.expanded"
event_kind_text plan_approved = "plan.approved"
event_kind_text plan_rejected = "plan.rejected"
event_kind_text plan_succeeded = "plan.succeeded"
event_kind_text plan_failed = "plan.failed"
event_kind_text plan_canceled = "plan.canceled"
event_kind_text node_ready = "node.ready"
event_kind_text node_started = "node.started"
event_kind_text node_succeeded = "node.succeeded"
event_kind_text node_failed = "node.failed"
event_kind_text node_retry_scheduled = "node.retry_scheduled"
event_kind_text node_skipped = "node.skipped"
event_kind_text node_canceled = "node.canceled"
event_kind_text node_input_resolved = "node.input_resolved"
event_kind_text capability_selected = "capability.selected"
event_kind_text conditions_evaluated = "conditions.evaluated"
event_kind_text artifacts_published = "artifacts.published"
event_kind_text budget_reported = "budget.reported"
event_kind_text (other kind) = kind

pub record StateEventApproval : Type 0 where
  pub gate : PlanApprovalGate
  pub decision : Option PlanApprovalDecision

pub record StateEvent : Type 0 where
  pub kind : EventKind
  pub node_id : String
  pub run_id : String
  pub reason : String
  pub attempt : ℤ
  pub expansion : PlanDeltaSpec
  pub artifacts : List ArtifactRef
  pub budget_delta : PlanBudgetUsage
  pub at : Time
  pub approval : Option StateEventApproval

abbrev pub reducer_plan_lifecycle_for_event : EventKind → Option PlanLifecycle
reducer_plan_lifecycle_for_event plan_started = some PlanLifecycle.running
reducer_plan_lifecycle_for_event plan_blocked = some PlanLifecycle.blocked
reducer_plan_lifecycle_for_event plan_approved = some PlanLifecycle.running
reducer_plan_lifecycle_for_event plan_rejected = some PlanLifecycle.failed
reducer_plan_lifecycle_for_event plan_succeeded = some PlanLifecycle.succeeded
reducer_plan_lifecycle_for_event plan_failed = some PlanLifecycle.failed
reducer_plan_lifecycle_for_event plan_canceled = some PlanLifecycle.canceled
reducer_plan_lifecycle_for_event _ = none

abbrev pub reducer_node_lifecycle_for_event : EventKind → Option NodeLifecycle
reducer_node_lifecycle_for_event node_ready = some NodeLifecycle.ready
reducer_node_lifecycle_for_event node_started = some NodeLifecycle.running
reducer_node_lifecycle_for_event node_succeeded = some NodeLifecycle.succeeded
reducer_node_lifecycle_for_event node_failed = some NodeLifecycle.failed
reducer_node_lifecycle_for_event node_skipped = some NodeLifecycle.skipped
reducer_node_lifecycle_for_event node_canceled = some NodeLifecycle.canceled
reducer_node_lifecycle_for_event _ = none

abbrev pub touch_node_event : EventKind → Bool
touch_node_event node_input_resolved = true
touch_node_event capability_selected = true
touch_node_event conditions_evaluated = true
touch_node_event _ = false
