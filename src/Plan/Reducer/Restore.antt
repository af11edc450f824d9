-- ===== src/Plan/Reducer/Restore.antt =====
-- The state restored from a durable snapshot (internal/usecase/agentosplan/state.go,
-- `NewStateFromStatus`, `expectedPlanNodeSet`, `restorePlanNodeStatuses`, `restorePlanNodeStatus`).
-- The range over `expectedNodes` is in the order of the plan: Go leaves it open, and it decides only
-- which missing node the error names.
use go_agent.Prelude.{
  pos, if◌then◌else◌, String, is_empty, not, List, [], ◌∷◌, Result, ok, err, ◌>>=◌, errorf,
  err_invalid_run_plan, string_key, key_eq,
}
use go_agent.Prelude.Dict.{Dict, put, has, keys}
use go_agent.Control.{RunPlanSpec, PlanNodeSpec, RunPlanStatus, PlanNodeStatus}
use go_agent.Plan.Reducer.State.{State, refresh}

abbrev pub NodeSet : Type 0
NodeSet = Dict String (Unit {0})

unfoldable pub expected_plan_node_set : NodeSet → List PlanNodeSpec → Result NodeSet
unfolding put has
expected_plan_node_set expected [] = ok expected
expected_plan_node_set expected (node ∷ rest) =
    let next = expected_plan_node_set (put node.node_id tt expected) rest in
    if is_empty node.node_id
    then err (errorf err_invalid_run_plan "node id is required" [])
    else if has node.node_id expected
    then err (errorf err_invalid_run_plan "duplicate node %q" (node.node_id ∷ []))
    else next

unfoldable pub restore_plan_node_status :
    Dict String PlanNodeStatus → NodeSet → PlanNodeStatus → Result (Dict String PlanNodeStatus)
unfolding put has
restore_plan_node_status nodes expected node =
    if is_empty node.node_id
    then err (errorf err_invalid_run_plan "snapshot node id is required" [])
    else if not (has node.node_id expected)
    then err (errorf err_invalid_run_plan "snapshot contains unknown node %q" (node.node_id ∷ []))
    else if has node.node_id nodes
    then err (errorf err_invalid_run_plan "snapshot contains duplicate node %q" (node.node_id ∷ []))
    else ok (put node.node_id node nodes)

unfoldable pub restore_loop :
    Dict String PlanNodeStatus → NodeSet → List PlanNodeStatus → Result (Dict String PlanNodeStatus)
unfolding restore_plan_node_status
restore_loop nodes expected [] = ok nodes
restore_loop nodes expected (node ∷ rest) =
    restore_plan_node_status nodes expected node >>= λ next. restore_loop next expected rest

-- The second loop: every expected node was restored.
unfoldable pub check_missing :
    List String → Dict String PlanNodeStatus → Result (Dict String PlanNodeStatus)
unfolding has
check_missing [] nodes = ok nodes
check_missing (node_id ∷ rest) nodes =
    let next = check_missing rest nodes in
    if has node_id nodes
    then next
    else err (errorf err_invalid_run_plan "snapshot missing node %q" (node_id ∷ []))

unfoldable pub restore_plan_node_statuses :
    RunPlanStatus → NodeSet → Result (Dict String PlanNodeStatus)
unfolding restore_loop check_missing
restore_plan_node_statuses status expected =
    restore_loop [] expected status.nodes >>= λ nodes. check_missing (keys expected) nodes

unfoldable pub restore_nodes : RunPlanSpec → RunPlanStatus → Result State
unfolding expected_plan_node_set restore_plan_node_statuses refresh
restore_nodes spec restored = expected_plan_node_set [] spec.nodes >>= λ expected.
    restore_plan_node_statuses restored expected >>= λ nodes.
    ok (
      refresh (record { status = restored; nodes = nodes; transitions = pos 0 })
        restored.updated_at)

unfoldable pub new_state_from_status : RunPlanSpec → RunPlanStatus → Result State
unfolding restore_nodes
new_state_from_status spec status =
    let plan_id = if is_empty status.plan_id then spec.plan_id else status.plan_id in
    if is_empty spec.plan_id
    then err (errorf err_invalid_run_plan "plan id is required" [])
    else if not (key_eq plan_id spec.plan_id)
    then err (
        errorf err_invalid_run_plan "snapshot plan id %q does not match spec plan id %q"
          (plan_id ∷ spec.plan_id ∷ []))
    else restore_nodes spec (record status { plan_id = plan_id })
