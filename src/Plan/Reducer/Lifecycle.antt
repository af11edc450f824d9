-- ===== src/Plan/Reducer/Lifecycle.antt =====
-- The life of one node over several events: starts and retries.
use go_agent.Prelude.{
  ℤ, pos, negsuc, ◌+ℤ◌, ltb_ℤ, add_int, FitsInt, String, true, false, some, ◌≡◌, ap, sym, subst, ℕ,
  ◌∙◌, arith, string_key, add_int_fits,
}
use go_agent.Prelude.Dict.{get, get-put_self}
use go_agent.Control.{Time, NodeLifecycle, PlanNodeStatus}
use go_agent.Plan.Reducer.Events.{StateEvent, node_started, node_retry_scheduled}
use go_agent.Plan.Reducer.State.{State, half_int32, is_node_running, settle}
use go_agent.Plan.Reducer.Nodes.{moved_node, retried_node, and_then, update_node}
use go_agent.Plan.Reducer.Apply.{apply, apply_kind, event_time}
use go_agent.Plan.Reducer.Cases.{apply_lem}

started_again :
    (event : StateEvent) (at : Time) (node : PlanNodeStatus)
    → is_node_running node.lifecycle_state ≡ true
    → let again = moved_node NodeLifecycle.running event at node in
      (again.attempts ≡ node.attempts)
      × (again.started_at ≡ node.started_at)
      × (again.completed_at ≡ node.completed_at)
unfolding moved_node
started_again event at node h = (ground arith, ground arith, ground arith)

-- An attempt number above 1 survives the subtraction at the retry and the addition at the start.
attempt_back :
    (half : ℕ) (a : ℤ)
    → FitsInt half a
    → ltb_ℤ (pos 1) a ≡ true
    → add_int half (add_int half a (negsuc 0)) (pos 1) ≡ a
unfolding ◌+ℤ◌
attempt_back half a fits many =
    let less : FitsInt half (a +ℤ negsuc 0) = (ground arith, ground arith) in
    let back : a +ℤ negsuc 0 +ℤ pos 1 ≡ a = ground arith in
    rw (add_int_fits half a (negsuc 0) less)
      (add_int_fits half (a +ℤ negsuc 0) (pos 1) (subst (FitsInt half) (sym back) fits) ∙ back)

retried-started :
    (retry start : StateEvent) (before after : Time) (node : PlanNodeStatus)
    → node.attempts ≡ pos 0
    → FitsInt half_int32 retry.attempt
    → ltb_ℤ (pos 1) retry.attempt ≡ true
    → ltb_ℤ (pos 0) start.attempt ≡ false
    → (moved_node NodeLifecycle.running start after (retried_node retry before node)).attempts
      ≡ retry.attempt
unfolding moved_node retried_node
retried-started retry start before after node zero fits many auto =
    rw (auto, many, zero) (attempt_back half_int32 retry.attempt fits many)

-- What the map holds behind an update of a node that is there.
update_node-get :
    (s : State) (node_id : String) (change : PlanNodeStatus → PlanNodeStatus) (at : Time)
    {node : PlanNodeStatus}
    → get node_id s.nodes ≡ some node
    → get node_id (and_then (update_node s node_id change) (λ t. settle t at)).0.nodes
      ≡ some (change node)
unfolding settle update_node
update_node-get s node_id change at {node} found =
    rw (found, update_node) (get-put_self node_id (change node) s.nodes)

pub start_node :
    (now : Time) (s : State) (event : StateEvent) {node : PlanNodeStatus}
    → event.kind ≡ node_started
    → get event.node_id s.nodes ≡ some node
    → get event.node_id (apply now s event).0.nodes
      ≡ some (moved_node NodeLifecycle.running event (event_time now event) node)
unfolding apply_kind
start_node now s event {node} kind found = rw (apply_lem now s event kind) (
    update_node-get s event.node_id (moved_node NodeLifecycle.running event (event_time now event))
      (event_time now event) found)

-- The same for an event that names the node by an equal id.
start_at :
    (now : Time) (s : State) (event : StateEvent) (node_id : String) {node : PlanNodeStatus}
    → event.kind ≡ node_started
    → event.node_id ≡ node_id
    → get node_id s.nodes ≡ some node
    → get node_id (apply now s event).0.nodes
      ≡ some (moved_node NodeLifecycle.running event (event_time now event) node)
start_at now s event node_id {node} kind same found =
    let here : get event.node_id s.nodes ≡ some node =
      subst (λ i. get i s.nodes ≡ some node) (sym same) found in
    subst
      (λ i.
        get i (apply now s event).0.nodes
        ≡ some (moved_node NodeLifecycle.running event (event_time now event) node))
      same (start_node now s event kind here)

moved_lifecycle :
    (event : StateEvent) (at : Time) (node : PlanNodeStatus)
    → (moved_node NodeLifecycle.running event at node).lifecycle_state ≡ NodeLifecycle.running
unfolding moved_node
moved_lifecycle event at node = ground arith

moved-running :
    (event : StateEvent) (at : Time) (node : PlanNodeStatus)
    → is_node_running (moved_node NodeLifecycle.running event at node).lifecycle_state ≡ true
moved-running event at node = ap is_node_running (moved_lifecycle event at node)

pub retry_at_node :
    (now : Time) (s : State) (event : StateEvent) {node : PlanNodeStatus}
    → event.kind ≡ node_retry_scheduled
    → get event.node_id s.nodes ≡ some node
    → get event.node_id (apply now s event).0.nodes
      ≡ some (retried_node event (event_time now event) node)
unfolding apply_kind
retry_at_node now s event {node} kind found = rw (apply_lem now s event kind) (
    update_node-get s event.node_id (retried_node event (event_time now event))
      (event_time now event) found)

-- Two starts of one node in a row count as one: behind the second the node is running with the
-- attempts and the times of start and completion that the first gave it.
pub start-start :
    (first second : Time) (s : State) (a b : StateEvent) {node : PlanNodeStatus}
    → a.kind ≡ node_started
    → b.kind ≡ node_started
    → b.node_id ≡ a.node_id
    → get a.node_id s.nodes ≡ some node
    → let t = (apply first s a).0 in
      let u = (apply second t b).0 in
      (n m : PlanNodeStatus) × (get a.node_id t.nodes ≡ some n)
      × (get a.node_id u.nodes ≡ some m)
      × (m.lifecycle_state ≡ NodeLifecycle.running)
      × (m.attempts ≡ n.attempts)
      × (m.started_at ≡ n.started_at)
      × (m.completed_at ≡ n.completed_at)
start-start first second s a b {node} ka kb same found =
    let t = (apply first s a).0 in
    let once = moved_node NodeLifecycle.running a (event_time first a) node in
    let started : get a.node_id t.nodes ≡ some once = start_node first s a ka found in
    let (attempts, start, completed) =
      started_again b (event_time second b) once (moved-running a (event_time first a) node) in
    (
      once,
      moved_node NodeLifecycle.running b (event_time second b) once,
      started,
      start_at second t b (a.node_id) kb same started,
      moved_lifecycle b (event_time second b) once,
      attempts,
      start,
      completed,
    )

-- A retry that names attempt a of a node that was never started, and then a start that names no
-- attempt, leave the node running with a attempts; a stands above 1 and fits an int32.
pub retry-start :
    (first second : Time) (s : State) (retry start : StateEvent) {node : PlanNodeStatus}
    → retry.kind ≡ node_retry_scheduled
    → start.kind ≡ node_started
    → start.node_id ≡ retry.node_id
    → get retry.node_id s.nodes ≡ some node
    → node.attempts ≡ pos 0
    → FitsInt half_int32 retry.attempt
    → ltb_ℤ (pos 1) retry.attempt ≡ true
    → ltb_ℤ (pos 0) start.attempt ≡ false
    → let u = (apply second (apply first s retry).0 start).0 in
      (n : PlanNodeStatus) × (get retry.node_id u.nodes ≡ some n)
      × (n.lifecycle_state ≡ NodeLifecycle.running)
      × (n.attempts ≡ retry.attempt)
retry-start first second s retry start {node} kr ks same found zero fits many auto =
    let t = (apply first s retry).0 in
    let once = retried_node retry (event_time first retry) node in
    (
      moved_node NodeLifecycle.running start (event_time second start) once,
      start_at second t start retry.node_id ks same (retry_at_node first s retry kr found),
      moved_lifecycle start (event_time second start) once,
      retried-started retry start (event_time first retry) (event_time second start) node zero fits
          many auto,
    )
