-- ===== src/Plan/Reducer/Apply.antt =====
-- One deterministic transition of the reducer (internal/usecase/agentosplan/state.go, `Apply`).
-- `now` is what `time.Now().UTC()` returns where the event carries no time.
use go_agent.Prelude.{
  ◌==◌, if◌then◌else◌, Bool, true, false, [], ◌∷◌, Option, none, some, Error, errorf,
  err_invalid_run_plan,
}
use go_agent.Control.{Time, PlanLifecycle}
use go_agent.Plan.Reducer.Events.{
  EventKind, plan_expanded, node_retry_scheduled, artifacts_published, budget_reported, StateEvent,
  reducer_plan_lifecycle_for_event, reducer_node_lifecycle_for_event, touch_node_event,
  event_kind_text,
}
use go_agent.Plan.Reducer.State.{State, settle}
use go_agent.Plan.Reducer.Gate.{apply_plan_event}
use go_agent.Plan.Reducer.Nodes.{
  publish_artifacts, touch_node, transition_node, retry_node, report_budget, expand,
}

abbrev pub event_time : Time → StateEvent → Time
event_time now event = if event.at == 0 then now else event.at

unfoldable pub plan_transition : State → PlanLifecycle → StateEvent → Time → State × Option Error
unfolding apply_plan_event settle
plan_transition s lifecycle event at =
    (settle (record s { status = apply_plan_event lifecycle event at s.status }) at, none)

abbrev pub is_expansion : EventKind → Bool
is_expansion plan_expanded = true
is_expansion _ = false

-- The tests of `Apply` behind those of the two lifecycle tables.
unfoldable pub apply_other : State → EventKind → StateEvent → Time → State × Option Error
unfolding publish_artifacts touch_node retry_node report_budget
apply_other s node_retry_scheduled event at = retry_node s event.node_id event at
apply_other s artifacts_published event at = publish_artifacts s event at
apply_other s budget_reported event at = report_budget s event at
apply_other s kind event at =
    if touch_node_event kind
    then touch_node s event.node_id at
    else (s, some (errorf err_invalid_run_plan "unknown plan event %q" (event_kind_text kind ∷ [])))

-- The tests of `Apply` in their order, on the kind of the event.
unfoldable pub apply_kind : EventKind → State → StateEvent → Time → State × Option Error
unfolding plan_transition transition_node apply_other expand
apply_kind kind s event at =
    if is_expansion kind
    then expand s event.expansion at
    else elim (reducer_plan_lifecycle_for_event kind) [
      | some lifecycle ↦ plan_transition s lifecycle event at
      | none ↦ elim (reducer_node_lifecycle_for_event kind) [
        | some lifecycle ↦ transition_node s event.node_id lifecycle event at
        | none ↦ apply_other s kind event at
      ]
    ]

unfoldable pub apply : Time → State → StateEvent → State × Option Error
unfolding apply_kind
apply now s event = apply_kind event.kind s event (event_time now event)
