-- ===== src/Plan/Validator/Executable.antt =====
-- What a validated plan is, and what it means for the scheduler.
use go_agent.Prelude.{
  ◌<◌, ◌+◌, String, true, ◌||◌, List, [], ◌∷◌, errorf, err_invalid_run_plan, ok, err, bind_ok,
  check_ok, ok_injective, if◌then◌else◌, string_key, key_eq, key_iff, ◌≡◌, sym, ap, ◌∙◌, subst,
  arith, length, All, Bool-cases, inl, inr, ltb_ℤ, pos,
}
use go_agent.Prelude.Dict.{Dict, keys, get_or, put, has, has-put, get_or-put}
use go_agent.Prelude.Members.{contains, Distinct, has-contains, All-contains}
use go_agent.Control.{
  PlanNodeSpec, PlanEdgeSpec, PlanPolicy, RunPlanSpec, RunPlanStatus, zero_node_spec,
}
use go_agent.Plan.Scheduler.Trigger.{ExpressionCompiler, Vars}
use go_agent.Plan.Scheduler.Decide.{ExecutablePlan, SchedulerDecision, status_by_node, decide}
use go_agent.Plan.Scheduler.Selection.{waits}
use go_agent.Plan.Scheduler.Exclusive.{IsIndexed}
use go_agent.Plan.Scheduler.Progress.{IsTopological, is_settled, any_waits, decide-progress}
use go_agent.Plan.Validator.Order.{topo_sort, max_depth}
use go_agent.Plan.Validator.Sorted.{topo_sort_lem, topo_sort-order}
use go_agent.Plan.Validator.Fuel.{LeadsTo, topo_order-Known}
use go_agent.Plan.Validator.Contracts.{Validator}
use go_agent.Plan.Validator.Nodes.{validate_nodes, validate_node}
use go_agent.Plan.Validator.Edges.{validate_edges, check_edges, edges_by, sort_edges}
use go_agent.Plan.Validator.Paths.{validate_input_mapping_contracts}
use go_agent.Plan.Validator.Graph.{IsForward-IsTopological, check_edges-LeadsTo}
use go_agent.Plan.Validator.Validate.{
  finish, validate_order, validate_graph, validate_policy, validate, validate_plan_envelope,
}

-- A plan as the scheduler needs it.
pub record IsExecutable (plan : ExecutablePlan) : Type 0 where
  pub indexed : IsIndexed plan
  pub topological : IsTopological plan.edges_by_to [] plan.order
  pub distinct : Distinct plan.order
  pub complete : length plan.order ≡ length plan.node_by_id

-- Every entry holds the node of its key.
abbrev IsNamed : Dict String PlanNodeSpec → Type 0
IsNamed nodes = (k : String) → has k nodes ≡ true → (get_or zero_node_spec k nodes).node_id ≡ k

put-IsNamed :
    (node : PlanNodeSpec) (nodes : Dict String PlanNodeSpec)
    → IsNamed nodes
    → IsNamed (put node.node_id node nodes)
put-IsNamed node nodes h k here = elim (Bool-cases (key_eq node.node_id k)) [
  | inl same ↦
      rw (get_or-put zero_node_spec node.node_id k node nodes, same)
        ((key_iff node.node_id k).0 same)
  | inr other ↦
      rw (get_or-put zero_node_spec node.node_id k node nodes, other)
        (h k (ground (arith, has-put node.node_id k node nodes)))
]

validate_nodes-IsNamed :
    (validator : Validator) (before : Dict String PlanNodeSpec) (nodes : List PlanNodeSpec)
    {after : Dict String PlanNodeSpec}
    → IsNamed before
    → validate_nodes validator before nodes ≡ ok after
    → IsNamed after
unfolding validate_nodes
validate_nodes-IsNamed validator before [] {after = after} h run =
    subst IsNamed (ok_injective before after run) h
validate_nodes-IsNamed validator before (node ∷ nodes) {after = after} h run =
    let next = put node.node_id node before in
    let rest = validate_nodes validator next nodes in
    let duplicate = errorf err_invalid_run_plan "duplicate node %q" (node.node_id ∷ []) in
    let (valid, distinct) =
      check_ok (validate_node validator node)
        (if has node.node_id before then err duplicate else rest) run in
    elim (Bool-cases (has node.node_id before)) [
      | inl twice ↦ cc (rw twice at distinct)
      | inr new ↦
          validate_nodes-IsNamed validator next nodes (put-IsNamed node before h)
            (rw new at distinct)
    ]

abbrev plan_of :
    RunPlanSpec
    → Dict String PlanNodeSpec
    → Dict String (List PlanEdgeSpec)
    → Dict String (List PlanEdgeSpec)
    → List String
    → ExecutablePlan
plan_of spec node_by_id edges_by_from edges_by_to order = record {
  spec = spec;
  node_by_id = node_by_id;
  edges_by_to = edges_by_to;
  edges_by_from = edges_by_from;
  order = order;
}

finish-plan_of :
    (spec : RunPlanSpec) (policy : PlanPolicy) (node_by_id : Dict String PlanNodeSpec)
    (edges_by_from edges_by_to : Dict String (List PlanEdgeSpec)) (order : List String)
    {plan : ExecutablePlan}
    → finish spec policy node_by_id edges_by_from edges_by_to order ≡ ok plan
    → plan_of spec node_by_id edges_by_from edges_by_to order ≡ plan
unfolding finish
finish-plan_of spec policy node_by_id edges_by_from edges_by_to order {plan = plan} h =
    let made = plan_of spec node_by_id edges_by_from edges_by_to order in
    let deep = ltb_ℤ policy.max_depth (pos (max_depth order edges_by_from)) in
    let refusal = errorf err_invalid_run_plan "plan depth exceeds max" [] in
    let (contracts, last) =
      check_ok (validate_input_mapping_contracts node_by_id edges_by_from spec)
        (if deep then err refusal else ok made) h in
    elim (Bool-cases deep) [
      | inl exceeds ↦ cc (rw exceeds at last)
      | inr fits ↦ ok_injective made plan (rw fits at last)
    ]

-- The plan made of an order that the sort returns.
order-IsExecutable :
    (spec : RunPlanSpec) (nodes : Dict String PlanNodeSpec)
    (by_from : Dict String (List PlanEdgeSpec)) (order : List String)
    → IsNamed nodes
    → LeadsTo (keys nodes) spec.edges
    → topo_sort nodes spec.edges ≡ ok order
    → IsExecutable
        (plan_of spec nodes by_from (sort_edges (edges_by (λ edge. edge.to) [] spec.edges)) order)
order-IsExecutable spec nodes by_from order named leads ordered =
    let facts = topo_sort_lem nodes spec.edges ordered in
    let same = (topo_sort-order nodes spec.edges ordered).0 in
    let known =
      subst
        (λ (ids : List String).
          (k : String) → contains k ids ≡ true → contains k (keys nodes) ≡ true)
        same (topo_order-Known nodes spec.edges leads) in
    record {
      indexed =
          All-contains (λ k. (get_or zero_node_spec k nodes).node_id ≡ k) order
            (λ k among. named k (has-contains k nodes ∙ known k among));
      topological = IsForward-IsTopological spec.edges [] order facts.0;
      distinct = facts.1;
      complete = facts.2;
    }

validate_edges_lem :
    (validator : Validator) (edges : List PlanEdgeSpec) (nodes : Dict String PlanNodeSpec)
    {groups : Dict String (List PlanEdgeSpec) × Dict String (List PlanEdgeSpec)}
    → validate_edges validator edges nodes ≡ ok groups
    → LeadsTo (keys nodes) edges
      × ((
        sort_edges (edges_by (λ edge. edge.from) [] edges),
        sort_edges (edges_by (λ edge. edge.to) [] edges),
      )
          ≡ groups)
unfolding validate_edges
validate_edges_lem validator edges nodes {groups = groups} h =
    let by_from = sort_edges (edges_by (λ edge. edge.from) [] edges) in
    let by_to = sort_edges (edges_by (λ edge. edge.to) [] edges) in
    let (edge_ids, accepted, built) =
      bind_ok (check_edges validator nodes [] edges) (λ ids. ok (by_from, by_to)) h in
    (
      check_edges-LeadsTo validator nodes [] edges accepted,
      ok_injective (by_from, by_to) groups built,
    )

validate_order-IsExecutable :
    (spec : RunPlanSpec) (policy : PlanPolicy) (nodes : Dict String PlanNodeSpec)
    (by_from : Dict String (List PlanEdgeSpec)) {plan : ExecutablePlan}
    → IsNamed nodes
    → LeadsTo (keys nodes) spec.edges
    → validate_order spec policy nodes
        (by_from, sort_edges (edges_by (λ edge. edge.to) [] spec.edges))
      ≡ ok plan
    → IsExecutable plan
unfolding validate_order
validate_order-IsExecutable spec policy nodes by_from {plan = plan} named leads h =
    let by_to = sort_edges (edges_by (λ edge. edge.to) [] spec.edges) in
    let (order, ordered, finished) =
      bind_ok (topo_sort nodes spec.edges) (finish spec policy nodes by_from by_to) h in
    subst IsExecutable (finish-plan_of spec policy nodes by_from by_to order finished)
      (order-IsExecutable spec nodes by_from order named leads ordered)

validate_graph-IsExecutable :
    (validator : Validator) (spec : RunPlanSpec) (policy : PlanPolicy)
    (nodes : Dict String PlanNodeSpec) {plan : ExecutablePlan}
    → IsNamed nodes
    → validate_graph validator spec policy nodes ≡ ok plan
    → IsExecutable plan
unfolding validate_graph
validate_graph-IsExecutable validator spec policy nodes {plan = plan} named h =
    let (groups, joined, sorted) =
      bind_ok (validate_edges validator spec.edges nodes) (validate_order spec policy nodes) h in
    let (leads, same) = validate_edges_lem validator spec.edges nodes joined in
    validate_order-IsExecutable spec policy nodes
      (sort_edges (edges_by (λ edge. edge.from) [] spec.edges)) named leads
      (subst (λ q. validate_order spec policy nodes q ≡ ok plan) (sym same) sorted)

-- A plan that the validator accepts is executable: its order names no id twice, as many ids as the
-- plan has nodes, each of them a node that carries its id, and every incoming edge of a node comes
-- from a node that stands before it in the order.
pub validate-IsExecutable :
    (validator : Validator) (spec : RunPlanSpec) {plan : ExecutablePlan}
    → validate validator spec ≡ ok plan
    → IsExecutable plan
unfolding validate validate_policy has
validate-IsExecutable validator spec h =
    let (policy, enveloped, checked) =
      bind_ok (validate_plan_envelope spec) (validate_policy validator spec) h in
    let (nodes, named, graphed) =
      bind_ok (validate_nodes validator [] spec.nodes) (validate_graph validator spec policy)
        checked in
    validate_graph-IsExecutable validator spec policy nodes
      (validate_nodes-IsNamed validator [] spec.nodes (λ k here. cc) named) graphed

-- A validated plan is the plan of the specification.
pub validate-spec :
    (validator : Validator) (spec : RunPlanSpec) {plan : ExecutablePlan}
    → validate validator spec ≡ ok plan
    → plan.spec ≡ spec
unfolding validate validate_policy validate_graph validate_order
validate-spec validator spec h =
    let (policy, enveloped, checked) =
      bind_ok (validate_plan_envelope spec) (validate_policy validator spec) h in
    let (nodes, named, graphed) =
      bind_ok (validate_nodes validator [] spec.nodes) (validate_graph validator spec policy)
        checked in
    let ((by_from, by_to), linked, ordered) =
      bind_ok (validate_edges validator spec.edges nodes) (validate_order spec policy nodes)
        graphed in
    let (order, sorted, finished) =
      bind_ok (topo_sort nodes spec.edges) (finish spec policy nodes by_from by_to) ordered in
    sym (
      ap (λ (p : ExecutablePlan). p.spec)
        (finish-plan_of spec policy nodes by_from by_to order finished))

-- The scheduler does not get stuck on a plan that the validator accepts: where every node of the
-- plan waits or has ended and some node waits, a decision without error runs or skips at least one.
pub validated_progress :
    (validator : Validator) (spec : RunPlanSpec) {plan : ExecutablePlan}
    (compiler : ExpressionCompiler) (status : RunPlanStatus) (vars : Vars)
    {decision : SchedulerDecision}
    → validate validator spec ≡ ok plan
    → All
        (λ node_id.
          (waits (status_by_node [] status.nodes) node_id
            || is_settled (status_by_node [] status.nodes) node_id)
          ≡ true)
        plan.order
    → any_waits (status_by_node [] status.nodes) plan.order ≡ true
    → decide compiler plan status vars ≡ ok decision
    → 0 < length decision.ready + length decision.skipped
validated_progress validator spec {plan = plan} compiler status vars accepted idle waiting decided =
    decide-progress compiler plan status vars
      (validate-IsExecutable validator spec accepted).topological idle waiting decided
