-- ===== src/Plan/Validator/Validate.antt =====
-- The whole validation (internal/usecase/agentosplan/validator.go, `Validate`,
-- `validatePlanEnvelope`; scope.go, `ValidateRunPlanScope`).
use go_agent.Prelude.{
  pos, ltb_ℤ, String, is_empty, ◌&&◌, List, [], ◌∷◌, Option, none, some, Error, Result, ok, err,
  errorf, check, ◌>>=◌, err_invalid_run_plan, if◌then◌else◌, length,
}
use go_agent.Prelude.Dict.{Dict}
use go_agent.Control.{RunPlanSpec, PlanPolicy, PlanNodeSpec, PlanEdgeSpec}
use go_agent.Plan.Scheduler.Decide.{ExecutablePlan}
use go_agent.Plan.Policy.Guards.{normalize_policy}
use go_agent.Plan.Validator.Order.{topo_sort, max_depth}
use go_agent.Plan.Validator.Contracts.{Validator}
use go_agent.Plan.Validator.Nodes.{validate_nodes}
use go_agent.Plan.Validator.Edges.{validate_edges}
use go_agent.Plan.Validator.Paths.{validate_input_mapping_contracts}

-- The pointer to the specification is not nil.
unfoldable pub validate_run_plan_scope : RunPlanSpec → Option Error
validate_run_plan_scope spec =
    if is_empty spec.plan_id
    then some (errorf err_invalid_run_plan "plan id is required" [])
    else if is_empty spec.account_id
    then some (errorf err_invalid_run_plan "account id is required" [])
    else if is_empty spec.project_id
    then some (errorf err_invalid_run_plan "project id is required" [])
    else none

unfoldable pub validate_plan_envelope : RunPlanSpec → Result PlanPolicy
unfolding validate_run_plan_scope normalize_policy
validate_plan_envelope spec =
    let policy = normalize_policy spec.policy in
    check (validate_run_plan_scope spec) (
      if ltb_ℤ (pos 0) policy.max_history_events
        && ltb_ℤ policy.max_history_events policy.continue_as_new_events
      then err (errorf err_invalid_run_plan "continue-as-new events exceeds max history events" [])
      else elim spec.nodes [
        | [] ↦ err (errorf err_invalid_run_plan "nodes are required" [])
        | node ∷ nodes ↦
            if ltb_ℤ policy.max_nodes (pos (length spec.nodes))
            then err (errorf err_invalid_run_plan "node count exceeds max" [])
            else ok policy
      ])

-- What `Validate` does once the order is found.
unfoldable pub finish :
    RunPlanSpec
    → PlanPolicy
    → Dict String PlanNodeSpec
    → Dict String (List PlanEdgeSpec)
    → Dict String (List PlanEdgeSpec)
    → List String
    → Result ExecutablePlan
unfolding validate_input_mapping_contracts max_depth
finish spec policy node_by_id edges_by_from edges_by_to order =
    check (validate_input_mapping_contracts node_by_id edges_by_from spec) (
      if ltb_ℤ policy.max_depth (pos (max_depth order edges_by_from))
      then err (errorf err_invalid_run_plan "plan depth exceeds max" [])
      else ok (record {
        spec = spec;
        node_by_id = node_by_id;
        edges_by_to = edges_by_to;
        edges_by_from = edges_by_from;
        order = order;
      }))

-- The same from the two maps of edges, from the map of nodes, and from the policy.
unfoldable pub validate_order :
    RunPlanSpec
    → PlanPolicy
    → Dict String PlanNodeSpec
    → Dict String (List PlanEdgeSpec) × Dict String (List PlanEdgeSpec)
    → Result ExecutablePlan
unfolding topo_sort finish
validate_order spec policy node_by_id (edges_by_from, edges_by_to) =
    topo_sort node_by_id spec.edges >>= finish spec policy node_by_id edges_by_from edges_by_to

unfoldable pub validate_graph :
    Validator → RunPlanSpec → PlanPolicy → Dict String PlanNodeSpec → Result ExecutablePlan
unfolding validate_edges validate_order
validate_graph validator spec policy node_by_id =
    validate_edges validator spec.edges node_by_id >>= validate_order spec policy node_by_id

unfoldable pub validate_policy : Validator → RunPlanSpec → PlanPolicy → Result ExecutablePlan
unfolding validate_nodes validate_graph
validate_policy validator spec policy =
    validate_nodes validator [] spec.nodes >>= validate_graph validator spec policy

unfoldable pub validate : Validator → RunPlanSpec → Result ExecutablePlan
unfolding validate_plan_envelope validate_policy
validate validator spec = validate_plan_envelope spec >>= validate_policy validator spec
