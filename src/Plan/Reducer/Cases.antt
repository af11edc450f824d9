-- ===== src/Plan/Reducer/Cases.antt =====
-- A proof rule for `Apply`: what holds of each of its handlers holds of it.
use go_agent.Prelude.{Option, some, Error, ◌≡◌, refl, ap}
use go_agent.Control.{Time, PlanLifecycle, NodeLifecycle}
use go_agent.Plan.Reducer.Events.{
  EventKind, plan_started, plan_blocked, plan_expanded, plan_approved, plan_rejected,
  plan_succeeded, plan_failed, plan_canceled, node_ready, node_started, node_succeeded, node_failed,
  node_retry_scheduled, node_skipped, node_canceled, node_input_resolved, capability_selected,
  conditions_evaluated, artifacts_published, budget_reported, other, StateEvent,
  reducer_plan_lifecycle_for_event, reducer_node_lifecycle_for_event,
}
use go_agent.Plan.Reducer.State.{State}
use go_agent.Plan.Reducer.Nodes.{
  publish_artifacts, touch_node, transition_node, retry_node, report_budget, expand,
}
use go_agent.Plan.Reducer.Apply.{apply, apply_kind, plan_transition, event_time}

-- What to show of each handler.
pub record Handlers {ℓ} (now : Time) (s : State) (event : StateEvent)
    (Q : State × Option Error → Type ℓ) : Type ℓ where
  pub on_expansion :
      event.kind ≡ plan_expanded → Q (expand s event.expansion (event_time now event))
  pub on_plan :
      (lifecycle : PlanLifecycle)
      → reducer_plan_lifecycle_for_event event.kind ≡ some lifecycle
      → Q (plan_transition s lifecycle event (event_time now event))
  pub on_node :
      (lifecycle : NodeLifecycle)
      → reducer_node_lifecycle_for_event event.kind ≡ some lifecycle
      → Q (transition_node s event.node_id lifecycle event (event_time now event))
  pub on_retry : Q (retry_node s event.node_id event (event_time now event))
  pub on_touch : Q (touch_node s event.node_id (event_time now event))
  pub on_artifacts : Q (publish_artifacts s event (event_time now event))
  pub on_budget : Q (report_budget s event (event_time now event))
  pub on_unknown : (e : Error) → Q (s, some e)

pub apply_cases {ℓ} :
    (now : Time) (s : State) (event : StateEvent) (Q : State × Option Error → Type ℓ)
    → Handlers now s event Q
    → Q (apply now s event)
unfolding apply
apply_cases now s event Q h = go event.kind refl
  where
    at : Time
    at = event_time now event

    table :
        (k : EventKind)
        → event.kind ≡ k
        → reducer_plan_lifecycle_for_event event.kind ≡ reducer_plan_lifecycle_for_event k
    table k e = ap reducer_plan_lifecycle_for_event e

    nodes :
        (k : EventKind)
        → event.kind ≡ k
        → reducer_node_lifecycle_for_event event.kind ≡ reducer_node_lifecycle_for_event k
    nodes k e = ap reducer_node_lifecycle_for_event e

    go : (k : EventKind) → event.kind ≡ k → Q (apply_kind k s event at)
    go plan_expanded e = h.on_expansion e
    go plan_started e = h.on_plan _ (table plan_started e)
    go plan_blocked e = h.on_plan _ (table plan_blocked e)
    go plan_approved e = h.on_plan _ (table plan_approved e)
    go plan_rejected e = h.on_plan _ (table plan_rejected e)
    go plan_succeeded e = h.on_plan _ (table plan_succeeded e)
    go plan_failed e = h.on_plan _ (table plan_failed e)
    go plan_canceled e = h.on_plan _ (table plan_canceled e)
    go node_ready e = h.on_node _ (nodes node_ready e)
    go node_started e = h.on_node _ (nodes node_started e)
    go node_succeeded e = h.on_node _ (nodes node_succeeded e)
    go node_failed e = h.on_node _ (nodes node_failed e)
    go node_skipped e = h.on_node _ (nodes node_skipped e)
    go node_canceled e = h.on_node _ (nodes node_canceled e)
    go node_retry_scheduled e = h.on_retry
    go node_input_resolved e = h.on_touch
    go capability_selected e = h.on_touch
    go conditions_evaluated e = h.on_touch
    go artifacts_published e = h.on_artifacts
    go budget_reported e = h.on_budget
    go (other k) e = h.on_unknown _

-- `Apply` on an event whose kind is known.
pub apply_lem :
    (now : Time) (s : State) (event : StateEvent) {kind : EventKind}
    → event.kind ≡ kind
    → apply now s event ≡ apply_kind kind s event (event_time now event)
unfolding apply
apply_lem now s event e = ap (λ k. apply_kind k s event (event_time now event)) e
