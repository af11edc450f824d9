-- ===== src/Plan/Reducer/Gate.antt =====
-- Lifecycle events of plans and the approval gate (internal/usecase/agentosplan/state.go,
-- `applyPlanEvent`, `applyApprovalGateEvent`, `recordPlanApprovalDecision`). A method that changes
-- `s.Status` returns the new status.
use go_agent.Prelude.{◌==◌, if◌then◌else◌, is_empty, Bool, true, false, ◌&&◌, Option, none, some}
use go_agent.Control.{
  Time, RunPlanStatus, PlanApprovalStatus, PlanApprovalDecision, PlanApprovalGate, PlanLifecycle,
  ApprovalLifecycle,
}
use go_agent.Plan.Reducer.Events.{
  EventKind, plan_started, plan_blocked, plan_approved, plan_rejected, StateEvent,
  StateEventApproval,
}

abbrev pub is_plan_blocked : PlanLifecycle → Bool
is_plan_blocked PlanLifecycle.blocked = true
is_plan_blocked _ = false

abbrev pub is_plan_started_event : EventKind → Bool
is_plan_started_event plan_started = true
is_plan_started_event _ = false

abbrev pub is_gate_pending : ApprovalLifecycle → Bool
is_gate_pending ApprovalLifecycle.pending = true
is_gate_pending _ = false

abbrev pub pending_gate : PlanApprovalGate → PlanApprovalStatus
pending_gate gate = record {
  lifecycle_state = ApprovalLifecycle.pending;
  gate = gate;
  decision = none;
}

-- The gate that a decision finds, where the status has none: the snapshot of the event, unless its
-- policy version is empty.
unfoldable pub event_gate : Option StateEventApproval → Option PlanApprovalStatus
event_gate none = none
event_gate (some a) = if is_empty a.gate.policy_version then none else some (pending_gate a.gate)

abbrev pub gate_or :
    Option PlanApprovalStatus → Option PlanApprovalStatus → Option PlanApprovalStatus
gate_or none other = other
gate_or (some gate) other = some gate

-- The decision that an event carries, or the one that the system makes without an actor.
unfoldable pub event_decision : Bool → StateEvent → PlanApprovalGate → Time → PlanApprovalDecision
event_decision approved event gate at =
    let system : PlanApprovalDecision = record {
      approved = approved;
      actor_id = "";
      reason = event.reason;
      policy_version = gate.policy_version;
      decided_at = at;
    } in
    elim event.approval [
      | none ↦ system
      | some a ↦ elim a.decision [ none ↦ system | some decision ↦ decision ]
    ]

unfoldable pub decide_gate : Bool → StateEvent → Time → PlanApprovalStatus → PlanApprovalStatus
unfolding event_decision
decide_gate approved event at gate =
    if is_gate_pending gate.lifecycle_state
    then record gate {
      lifecycle_state = if approved then ApprovalLifecycle.approved else ApprovalLifecycle.rejected;
      decision = some (event_decision approved event gate.gate at);
    }
    else gate

unfoldable pub record_plan_approval_decision :
    Bool → StateEvent → Time → RunPlanStatus → RunPlanStatus
unfolding event_gate decide_gate
record_plan_approval_decision approved event at status =
    elim (gate_or status.approval (event_gate event.approval)) [
      | none ↦ status
      | some gate ↦ record status { approval = some (decide_gate approved event at gate) }
    ]

-- Leaving the blocked lifecycle without a decision closes a pending gate.
unfoldable pub close_gate : PlanLifecycle → RunPlanStatus → RunPlanStatus
close_gate lifecycle status = elim status.approval [
  | none ↦ status
  | some gate ↦
      if is_plan_blocked lifecycle
      then status
      else if is_gate_pending gate.lifecycle_state
      then record status { approval = none }
      else status
]

unfoldable pub open_gate : StateEvent → RunPlanStatus → RunPlanStatus
open_gate event status = elim event.approval [
  | none ↦ status
  | some a ↦ record status { approval = some (pending_gate a.gate) }
]

-- The `switch` of `applyApprovalGateEvent`.
unfoldable pub apply_approval_gate_event :
    EventKind → StateEvent → PlanLifecycle → Time → RunPlanStatus → RunPlanStatus
unfolding record_plan_approval_decision close_gate open_gate
apply_approval_gate_event plan_blocked event lifecycle at status = open_gate event status
apply_approval_gate_event plan_approved event lifecycle at status =
    record_plan_approval_decision true event at status
apply_approval_gate_event plan_rejected event lifecycle at status =
    record_plan_approval_decision false event at status
apply_approval_gate_event _ event lifecycle at status = close_gate lifecycle status

-- `BlockedAt` is set on entering the blocked lifecycle and cleared on any other plan event.
abbrev pub blocked_at_after : PlanLifecycle → Time → Time → Time
blocked_at_after lifecycle at before =
    if is_plan_blocked lifecycle then at else if before == 0 then before else 0

abbrev pub started_at_after : EventKind → Time → Time → Time
started_at_after kind at before = if is_plan_started_event kind && before == 0 then at else before

unfoldable pub apply_plan_event : PlanLifecycle → StateEvent → Time → RunPlanStatus → RunPlanStatus
unfolding apply_approval_gate_event
apply_plan_event lifecycle event at status =
    apply_approval_gate_event event.kind event lifecycle at (record status {
      lifecycle_state = lifecycle;
      reason = event.reason;
      started_at = started_at_after event.kind at status.started_at;
      blocked_at = blocked_at_after lifecycle at status.blocked_at;
    })
