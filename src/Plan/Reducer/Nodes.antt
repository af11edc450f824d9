-- ===== src/Plan/Reducer/Nodes.antt =====
-- Transitions of nodes, artifacts, the budget and the topology
-- (internal/usecase/agentosplan/state.go, `publishArtifacts`, `touchNode`, `transitionNode`,
-- `retryNode`, `reportBudget`, `expand`). A method returns the new state and its error.
use go_agent.Prelude.{
  ℤ, pos, negsuc, ltb_ℤ, ◌==ℤ◌, add_int, if◌then◌else◌, String, is_empty, Bool, true, false, ◌&&◌,
  List, [], ◌∷◌, ◌++◌, Option, none, some, Error, errorf, err_invalid_run_plan, string_key,
}
use go_agent.Prelude.Dict.{Dict, get, put, has}
use go_agent.Control.{
  Time, PlanDeltaSpec, PlanNodeSpec, PlanNodeStatus, PlanApprovalStatus, NodeLifecycle,
  ApprovalLifecycle,
}
use go_agent.Plan.Reducer.Events.{StateEvent}
use go_agent.Plan.Reducer.State.{
  State, half_int32, half_int64, is_node_running, settle, pending_node,
}

abbrev pub unknown_node : String → Error
unknown_node node_id = errorf err_invalid_run_plan "unknown node %q" (node_id ∷ [])

-- `s.nodes[nodeID]` with the error of a missing node, and the write of the changed node.
unfoldable pub update_node :
    State → String → (PlanNodeStatus → PlanNodeStatus) → State × Option Error
unfolding get put
update_node s node_id change = elim (get node_id s.nodes) [
  | none ↦ (s, some (unknown_node node_id))
  | some node ↦ (record s { nodes = put node_id (change node) s.nodes }, none)
]

-- The same where the node id is optional: with an empty one nothing is written.
unfoldable pub update_if_named :
    State → String → (PlanNodeStatus → PlanNodeStatus) → State × Option Error
unfolding update_node
update_if_named s node_id change =
    if is_empty node_id then (s, none) else update_node s node_id change

-- What follows a step that may fail: on an error the state that the step left.
abbrev pub and_then : State × Option Error → (State → State) → State × Option Error
and_then (s, none) f = (f s, none)
and_then (s, some e) f = (s, some e)

unfoldable pub publish_artifacts : State → StateEvent → Time → State × Option Error
unfolding update_if_named settle
publish_artifacts s event at =
    and_then
      (update_if_named s event.node_id
        (λ node. record node { artifacts = node.artifacts ++ event.artifacts; updated_at = at }))
      (λ t.
        settle
          (record t {
            status = record t.status { artifacts = t.status.artifacts ++ event.artifacts };
          })
          at)

unfoldable pub touch_node : State → String → Time → State × Option Error
unfolding update_if_named settle
touch_node s node_id at =
    and_then (update_if_named s node_id (λ node. record node { updated_at = at }))
      (λ t. settle t at)

abbrev pub started_attempts : StateEvent → PlanNodeStatus → ℤ
started_attempts event node =
    if ltb_ℤ (pos 0) event.attempt then event.attempt else add_int half_int32 node.attempts (pos 1)

-- The `switch` on the new lifecycle; `previous` is the lifecycle that the node had.
unfoldable pub stamp :
    NodeLifecycle → NodeLifecycle → StateEvent → Time → PlanNodeStatus → PlanNodeStatus
unfolding add_int
stamp NodeLifecycle.running previous event at node =
    if is_node_running previous
    then node
    else record node { attempts = started_attempts event node; started_at = at; completed_at = 0 }
stamp NodeLifecycle.succeeded previous event at node = record node { completed_at = at }
stamp NodeLifecycle.failed previous event at node = record node { completed_at = at }
stamp NodeLifecycle.skipped previous event at node = record node { completed_at = at }
stamp NodeLifecycle.canceled previous event at node = record node { completed_at = at }
stamp _ previous event at node = node

unfoldable pub moved_node : NodeLifecycle → StateEvent → Time → PlanNodeStatus → PlanNodeStatus
unfolding stamp
moved_node lifecycle event at node =
    let moved = record node {
      lifecycle_state = lifecycle;
      reason = event.reason;
      run_id = if is_empty event.run_id then node.run_id else event.run_id;
    } in
    let stamped = stamp lifecycle node.lifecycle_state event at moved in
    record stamped { artifacts = stamped.artifacts ++ event.artifacts; updated_at = at }

unfoldable pub transition_node :
    State → String → NodeLifecycle → StateEvent → Time → State × Option Error
unfolding update_node moved_node settle
transition_node s node_id lifecycle event at =
    and_then (update_node s node_id (moved_node lifecycle event at)) (λ t. settle t at)

unfoldable pub retried_node : StateEvent → Time → PlanNodeStatus → PlanNodeStatus
unfolding add_int
retried_node event at node = record node {
  attempts =
      if node.attempts ==ℤ pos 0 && ltb_ℤ (pos 1) event.attempt
      then add_int half_int32 event.attempt (negsuc 0)
      else node.attempts;
  lifecycle_state = NodeLifecycle.ready;
  run_id = "";
  reason = event.reason;
  started_at = 0;
  completed_at = 0;
  updated_at = at;
}

unfoldable pub retry_node : State → String → StateEvent → Time → State × Option Error
unfolding update_node retried_node settle
retry_node s node_id event at =
    and_then (update_node s node_id (retried_node event at)) (λ t. settle t at)

abbrev pub charge : ℤ → ℤ → ℤ
charge spent delta = add_int half_int64 spent delta

unfoldable pub report_budget : State → StateEvent → Time → State × Option Error
unfolding update_if_named settle add_int
report_budget s event at =
    let delta = event.budget_delta.spent_cents in
    if ltb_ℤ delta (pos 0)
    then (s, some (errorf err_invalid_run_plan "budget delta cannot be negative" []))
    else and_then
        (update_if_named s event.node_id (λ node. record node {
          budget_usage = record { spent_cents = charge node.budget_usage.spent_cents delta };
          updated_at = at;
        }))
        (λ t.
          settle
            (record t {
              status = record t.status {
                budget_usage = record {
                  spent_cents = charge t.status.budget_usage.spent_cents delta;
                };
              };
            })
            at)

-- The loop of `expand` over the new nodes. `s.nodes` is written in place, so the nodes that stand
-- before a refused one stay.
unfoldable pub add_nodes :
    Dict String PlanNodeStatus
    → List PlanNodeSpec
    → Time
    → Dict String PlanNodeStatus × Option Error
unfolding put has pending_node
add_nodes nodes [] at = (nodes, none)
add_nodes nodes (node ∷ rest) at =
    let added = add_nodes (put node.node_id (pending_node node at) nodes) rest at in
    if is_empty node.node_id
    then (nodes, some (errorf err_invalid_run_plan "expansion node id is required" []))
    else if has node.node_id nodes
    then (
      nodes,
      some (errorf err_invalid_run_plan "expansion node %q already exists" (node.node_id ∷ [])),
    )
    else added

abbrev pub is_delta_empty : PlanDeltaSpec → Bool
is_delta_empty delta = elim delta.nodes [
  | [] ↦ elim delta.edges [ [] ↦ true | _ ∷ _ ↦ false ]
  | _ ∷ _ ↦ false
]

-- A gate no longer describes the topology that an expansion changed.
abbrev pub stale_gate : Option PlanApprovalStatus → Option PlanApprovalStatus
stale_gate none = none
stale_gate (some gate) = some (record gate { lifecycle_state = ApprovalLifecycle.stale })

unfoldable pub expand : State → PlanDeltaSpec → Time → State × Option Error
unfolding add_nodes settle
expand s delta at =
    let (nodes, error) = add_nodes s.nodes delta.nodes at in
    if is_delta_empty delta
    then (s, some (errorf err_invalid_run_plan "expansion delta is empty" []))
    else and_then (record s { nodes = nodes }, error)
        (λ t.
          settle (record t { status = record t.status { approval = stale_gate t.status.approval } })
            at)
