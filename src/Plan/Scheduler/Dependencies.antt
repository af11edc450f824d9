-- ===== src/Plan/Scheduler/Dependencies.antt =====
-- The incoming edges of a node (internal/usecase/agentosplan/scheduler.go, `dependencyEvaluation`,
-- `evaluateDependencies`, `evaluateAllJoin`, `evaluateAnyJoin`, `evaluateEdges`).
use go_agent.Prelude.{
  ℕ, ◌+◌, ltb, ◌==◌, String, is_empty, Bool, true, false, List, [], ◌∷◌, ◌++◌, none, some, Result,
  ok, err, errorf, wrapf, ◌>>=◌, err_invalid_run_plan, if◌then◌else◌, string_key,
}
use go_agent.Prelude.Dict.{Dict, get}
use go_agent.Control.{PlanNodeSpec, PlanEdgeSpec, PlanNodeStatus, PlanJoinStrategy, NodeLifecycle}
use go_agent.Plan.Scheduler.Trigger.{
  ExpressionCompiler, Vars, ConditionEvaluationTrace, evaluate, edge_trigger, edge_satisfied,
  node_terminal, normalize_join,
}

pub record DependencyEvaluation : Type 0 where
  pub ready : Bool
  pub impossible : Bool
  pub reason : String
  pub traces : List ConditionEvaluationTrace

-- The results of `evaluateEdges`. The counters are bounded by the number of edges.
pub record EdgeCounts : Type 0 where
  pub waiting : ℕ
  pub satisfied : ℕ
  pub impossible : ℕ
  pub traces : List ConditionEvaluationTrace

abbrev pub no_counts : EdgeCounts
no_counts = record { waiting = 0; satisfied = 0; impossible = 0; traces = [] }

unfoldable pub edge_traces :
    PlanNodeSpec → PlanEdgeSpec → NodeLifecycle → Bool → List ConditionEvaluationTrace
unfolding edge_trigger
edge_traces node edge parent is_active =
    if is_empty edge.condition
    then []
    else record {
      scope = "edge";
      node_id = node.node_id;
      edge_id = edge.edge_id;
      from = edge.from;
      to = edge.to;
      expression = edge.condition;
      result = is_active;
      on = edge_trigger edge.on;
      parent_state = parent;
    }
      ∷ []

-- The counters after an edge whose parent is terminal and whose condition is evaluated.
unfoldable pub count_edge :
    PlanNodeSpec → PlanEdgeSpec → NodeLifecycle → Bool → EdgeCounts → EdgeCounts
unfolding edge_traces edge_satisfied edge_trigger
count_edge node edge parent is_active counts =
    let traced = record counts {
      traces = counts.traces ++ edge_traces node edge parent is_active;
    } in
    if is_active
    then if edge_satisfied (edge_trigger edge.on) parent
      then record traced { satisfied = traced.satisfied + 1 }
      else record traced { impossible = traced.impossible + 1 }
    else traced

module _ (compiler : ExpressionCompiler) (nodes : Dict String PlanNodeStatus) (vars : Vars) where
  -- One turn of the loop of `evaluateEdges`.
  unfoldable pub evaluate_edge : PlanNodeSpec → PlanEdgeSpec → EdgeCounts → Result EdgeCounts
  unfolding get node_terminal evaluate count_edge
  evaluate_edge node edge counts = elim (get edge.from nodes) [
    | none ↦
        err (
          errorf err_invalid_run_plan "edge %q from unknown node %q"
            (edge.edge_id ∷ edge.from ∷ []))
    | some parent ↦
        if node_terminal parent.lifecycle_state
        then elim (evaluate compiler edge.condition vars) [
          | err e ↦ err (wrapf "edge %q condition" e)
          | ok is_active ↦ ok (count_edge node edge parent.lifecycle_state is_active counts)
        ]
        else ok (record counts { waiting = counts.waiting + 1 })
  ]

  unfoldable pub evaluate_edges : PlanNodeSpec → List PlanEdgeSpec → EdgeCounts → Result EdgeCounts
  unfolding evaluate_edge
  evaluate_edges node [] counts = ok counts
  evaluate_edges node (edge ∷ edges) counts =
      evaluate_edge node edge counts >>= evaluate_edges node edges

unfoldable pub evaluate_all_join :
    ℕ → ℕ → ℕ → ℕ → List ConditionEvaluationTrace → DependencyEvaluation
evaluate_all_join waiting satisfied impossible active traces =
    if ltb 0 impossible
    then record {
      ready = false;
      impossible = true;
      reason = "required dependency edge cannot be satisfied";
      traces = traces;
    }
    else if ltb 0 waiting
    then record { ready = false; impossible = false; reason = ""; traces = traces }
    else if active == 0
    then record {
      ready = false;
      impossible = true;
      reason = "no active incoming dependency edges";
      traces = traces;
    }
    else record { ready = satisfied == active; impossible = false; reason = ""; traces = traces }

unfoldable pub evaluate_any_join :
    ℕ → ℕ → ℕ → ℕ → List ConditionEvaluationTrace → DependencyEvaluation
evaluate_any_join waiting satisfied impossible active traces =
    if ltb 0 satisfied
    then record { ready = true; impossible = false; reason = ""; traces = traces }
    else if ltb 0 waiting
    then record { ready = false; impossible = false; reason = ""; traces = traces }
    else if active == 0
    then record {
      ready = false;
      impossible = true;
      reason = "no active incoming dependency edges";
      traces = traces;
    }
    else if impossible == active
    then record {
      ready = false;
      impossible = true;
      reason = "no dependency edge can be satisfied";
      traces = traces;
    }
    else record { ready = false; impossible = false; reason = ""; traces = traces }

-- The text that a join strategy stands for, for error messages.
abbrev pub join_text : PlanJoinStrategy → String
join_text PlanJoinStrategy.unset = ""
join_text PlanJoinStrategy.join_all = "all"
join_text PlanJoinStrategy.join_any = "any"
join_text PlanJoinStrategy.join_first = "first"
join_text (PlanJoinStrategy.other name) = name

unfoldable pub join_counts : PlanJoinStrategy → EdgeCounts → Result DependencyEvaluation
unfolding normalize_join evaluate_all_join evaluate_any_join
join_counts join counts =
    let active = counts.satisfied + counts.impossible in
    elim (normalize_join join) [
      | PlanJoinStrategy.join_all ↦
          ok (
            evaluate_all_join counts.waiting counts.satisfied counts.impossible active
              counts.traces)
      | PlanJoinStrategy.join_any ↦
          ok (
            evaluate_any_join counts.waiting counts.satisfied counts.impossible active
              counts.traces)
      | PlanJoinStrategy.join_first ↦
          ok (
            evaluate_any_join counts.waiting counts.satisfied counts.impossible active
              counts.traces)
      | _ ↦ err (errorf err_invalid_run_plan "invalid join strategy %q" (join_text join ∷ []))
    ]

unfoldable pub evaluate_dependencies :
    ExpressionCompiler
    → PlanNodeSpec
    → List PlanEdgeSpec
    → Dict String PlanNodeStatus
    → Vars
    → Result DependencyEvaluation
unfolding evaluate_edges join_counts
evaluate_dependencies compiler node [] nodes vars =
    ok (record { ready = true; impossible = false; reason = ""; traces = [] })
evaluate_dependencies compiler node (edge ∷ edges) nodes vars =
    evaluate_edges compiler nodes vars node (edge ∷ edges) no_counts
    >>= join_counts node.policy.join
