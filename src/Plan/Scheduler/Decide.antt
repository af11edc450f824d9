-- ===== src/Plan/Scheduler/Decide.antt =====
-- One tick of the scheduler (internal/usecase/agentosplan/scheduler.go, `Decide`, `ReadyNodes`,
-- `nodeConditionsTrue`; validator.go, `ExecutablePlan`).
use go_agent.Prelude.{
  String, str_leb, Bool, true, false, List, [], ◌∷◌, ◌++◌, Result, ok, ◌>>=◌, if◌then◌else◌,
  string_key,
}
use go_agent.Prelude.Dict.{Dict, get_or, put}
use go_agent.Prelude.Sort.{sort_by}
use go_agent.Control.{
  PlanNodeSpec, PlanEdgeSpec, PlanNodeStatus, RunPlanSpec, RunPlanStatus, NodeLifecycle,
  EdgeTrigger, zero_node_status, zero_node_spec,
}
use go_agent.Plan.Scheduler.Trigger.{ExpressionCompiler, Vars, ConditionEvaluationTrace, evaluate}
use go_agent.Plan.Scheduler.Dependencies.{DependencyEvaluation, evaluate_dependencies}

pub record ExecutablePlan : Type 0 where
  pub spec : RunPlanSpec
  pub node_by_id : Dict String PlanNodeSpec
  pub edges_by_to : Dict String (List PlanEdgeSpec)
  pub edges_by_from : Dict String (List PlanEdgeSpec)
  pub order : List String

pub record SkippedNode : Type 0 where
  pub node_id : String
  pub reason : String

pub record SchedulerDecision : Type 0 where
  pub ready : List PlanNodeSpec
  pub skipped : List SkippedNode
  pub condition_traces : List ConditionEvaluationTrace

abbrev pub no_decision : SchedulerDecision
no_decision = record { ready = []; skipped = []; condition_traces = [] }

-- The first loop of `Decide`: a later status of one id overwrites an earlier one.
unfoldable pub status_by_node :
    Dict String PlanNodeStatus → List PlanNodeStatus → Dict String PlanNodeStatus
unfolding put
status_by_node nodes [] = nodes
status_by_node nodes (node ∷ rest) = status_by_node (put node.node_id node nodes) rest

abbrev pub node_trace : PlanNodeSpec → String → Bool → ConditionEvaluationTrace
node_trace node condition result = record {
  scope = "node";
  node_id = node.node_id;
  edge_id = "";
  from = "";
  to = "";
  expression = condition;
  result = result;
  on = EdgeTrigger.unset;
  parent_state = NodeLifecycle.other "";
}

-- The loop of `nodeConditionsTrue` over the conditions. Its callers drop the traces of an error.
unfoldable pub conditions_true :
    ExpressionCompiler
    → PlanNodeSpec
    → List String
    → Vars
    → List ConditionEvaluationTrace
    → Result (Bool × List ConditionEvaluationTrace)
unfolding evaluate
conditions_true compiler node [] vars traces = ok (true, traces)
conditions_true compiler node (condition ∷ rest) vars traces =
    evaluate compiler condition vars >>= λ holds.
    let traced = traces ++ node_trace node condition holds ∷ [] in
    if holds then conditions_true compiler node rest vars traced else ok (false, traced)

unfoldable pub node_conditions_true :
    ExpressionCompiler → PlanNodeSpec → Vars → Result (Bool × List ConditionEvaluationTrace)
unfolding conditions_true
node_conditions_true compiler node vars = conditions_true compiler node node.conditions vars []

abbrev pub is_waiting : NodeLifecycle → Bool
is_waiting NodeLifecycle.pending = true
is_waiting NodeLifecycle.ready = true
is_waiting _ = false

-- What the dependencies of a node add to the decision.
unfoldable pub add_dependencies :
    PlanNodeSpec → DependencyEvaluation → SchedulerDecision → SchedulerDecision
add_dependencies node dependencies decision = record {
  ready = if dependencies.ready then decision.ready ++ node ∷ [] else decision.ready;
  skipped =
      if dependencies.impossible
      then decision.skipped ++ record { node_id = node.node_id; reason = dependencies.reason } ∷ []
      else decision.skipped;
  condition_traces = decision.condition_traces ++ dependencies.traces;
}

-- A node whose conditions are false is skipped.
unfoldable pub add_refused : PlanNodeSpec → SchedulerDecision → SchedulerDecision
add_refused node decision = record decision {
  skipped =
      decision.skipped
      ++ record { node_id = node.node_id; reason = "node conditions evaluated false" } ∷ [];
}

module _ (compiler : ExpressionCompiler) (plan : ExecutablePlan)
    (nodes : Dict String PlanNodeStatus) (vars : Vars) where
  -- The turn of the loop once the conditions of the node are evaluated.
  unfoldable pub decide_checked :
      String
      → PlanNodeSpec
      → SchedulerDecision
      → Bool × List ConditionEvaluationTrace
      → Result SchedulerDecision
  unfolding get_or evaluate_dependencies add_dependencies add_refused
  decide_checked node_id node decision (holds, traces) =
      let traced = record decision { condition_traces = decision.condition_traces ++ traces } in
      if holds
      then (evaluate_dependencies compiler node (get_or [] node_id plan.edges_by_to) nodes vars
          >>= λ dependencies. ok (add_dependencies node dependencies traced))
      else ok (add_refused node traced)

  -- One turn of the second loop of `Decide`, with the node and its status read from the maps.
  unfoldable pub decide_node : String → SchedulerDecision → Result SchedulerDecision
  unfolding get_or node_conditions_true decide_checked
  decide_node node_id decision =
      let node = get_or zero_node_spec node_id plan.node_by_id in
      if is_waiting (get_or zero_node_status node_id nodes).lifecycle_state
      then node_conditions_true compiler node vars >>= decide_checked node_id node decision
      else ok decision

  unfoldable pub decide_loop : List String → SchedulerDecision → Result SchedulerDecision
  unfolding decide_node
  decide_loop [] decision = ok decision
  decide_loop (node_id ∷ rest) decision = decide_node node_id decision >>= decide_loop rest

abbrev pub spec_leb : PlanNodeSpec → PlanNodeSpec → Bool
spec_leb a b = str_leb a.node_id b.node_id

abbrev pub skipped_leb : SkippedNode → SkippedNode → Bool
skipped_leb a b = str_leb a.node_id b.node_id

unfoldable pub decide :
    ExpressionCompiler → ExecutablePlan → RunPlanStatus → Vars → Result SchedulerDecision
unfolding decide_loop status_by_node sort_by
decide compiler plan status vars =
    decide_loop compiler plan (status_by_node [] status.nodes) vars plan.order no_decision
    >>= λ decision. ok (record decision {
      ready = sort_by spec_leb decision.ready;
      skipped = sort_by skipped_leb decision.skipped;
    })

unfoldable pub ready_nodes :
    ExpressionCompiler → ExecutablePlan → RunPlanStatus → Vars → Result (List PlanNodeSpec)
unfolding decide
ready_nodes compiler plan status vars =
    decide compiler plan status vars >>= λ decision. ok decision.ready
