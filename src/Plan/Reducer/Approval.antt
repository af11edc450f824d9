-- ===== src/Plan/Reducer/Approval.antt =====
-- The approval gate and the clock of the blocked lifecycle, over all events.
use go_agent.Prelude.{◌<◌, Bool, true, false, Option, none, some, ◌≡◌, ◌≢◌, arith}
use go_agent.Control.{Time, RunPlanStatus, PlanApprovalStatus}
use go_agent.Plan.Reducer.Events.{StateEvent, plan_blocked, plan_expanded}
use go_agent.Plan.Reducer.State.{State}
use go_agent.Plan.Reducer.Gate.{is_plan_blocked, is_gate_pending}
use go_agent.Plan.Reducer.Apply.{apply, event_time}

abbrev pub has_pending_gate : Option PlanApprovalStatus → Bool
has_pending_gate none = false
has_pending_gate (some gate) = is_gate_pending gate.lifecycle_state

-- The clock of the approval timeout runs just while the plan is blocked, and only a blocked plan
-- has a pending gate.
pub record IsGated (status : RunPlanStatus) : Type 0 where
  pub clock_runs : is_plan_blocked status.lifecycle_state ≡ true → 0 < status.blocked_at
  pub clock_cleared : is_plan_blocked status.lifecycle_state ≡ false → status.blocked_at ≡ 0
  pub pending_blocked :
      has_pending_gate status.approval ≡ true → is_plan_blocked status.lifecycle_state ≡ true

-- Every event, accepted or refused, keeps the gate invariant, where the time of the event is set.
pub apply-IsGated :
    (now : Time) (s : State) (event : StateEvent)
    → 0 < event_time now event
    → IsGated s.status
    → IsGated (apply now s event).0.status
unfolding apply
apply-IsGated now s event t h = ground arith

-- A gate that is decided or stale stays as it is, its decision included, under every event but a
-- plan.blocked that opens a new gate and an expansion.
pub decision_kept :
    (now : Time) (s : State) (event : StateEvent) (gate : PlanApprovalStatus)
    → s.status.approval ≡ some gate
    → is_gate_pending gate.lifecycle_state ≡ false
    → event.kind ≢ plan_blocked
    → event.kind ≢ plan_expanded
    → (apply now s event).0.status.approval ≡ some gate
unfolding apply
decision_kept now s event gate h p blocked expanded = ground arith

-- The start time of a plan, once set, and its id and metadata are never changed.
pub apply-identity :
    (now : Time) (s : State) (event : StateEvent)
    → let t = (apply now s event).0 in
      (t.status.plan_id ≡ s.status.plan_id)
      × (t.status.metadata ≡ s.status.metadata)
      × (0 < s.status.started_at → t.status.started_at ≡ s.status.started_at)
unfolding apply
apply-identity now s event = (ground arith, ground arith, ground arith)
