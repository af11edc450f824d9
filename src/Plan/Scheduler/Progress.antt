-- ===== src/Plan/Scheduler/Progress.antt =====
-- What a tick does for a plan in which nothing runs (internal/usecase/agentosplan/scheduler.go).
use go_agent.Prelude.{
  suc, ◌+◌, ◌<◌, String, str_leb, Bool, true, false, ◌||◌, List, [], ◌∷◌, ◌++◌, map, none, some, ok,
  bind_ok, string_key, key_eq, key_iff, ◌≡◌, refl, sym, ap, ◌∙◌, subst, arith, length, select, All,
  All-map, Bool-cases, inl, inr,
}
use go_agent.Prelude.Dict.{Dict, get, get_or}
use go_agent.Prelude.Sort.{sort_by, length-sort_by}
use go_agent.Prelude.Members.{contains, contains_snoc}
use go_agent.Control.{PlanNodeSpec, PlanEdgeSpec, PlanNodeStatus, PlanJoinStrategy, RunPlanStatus}
use go_agent.Plan.Scheduler.Trigger.{
  ExpressionCompiler, Vars, ConditionEvaluationTrace, node_terminal, normalize_join,
}
use go_agent.Plan.Scheduler.Dependencies.{
  DependencyEvaluation, EdgeCounts, no_counts, count_edge, evaluate_edge, evaluate_edges,
  join_counts, evaluate_all_join, evaluate_any_join, evaluate_dependencies,
}
use go_agent.Plan.Scheduler.Decide.{
  ExecutablePlan, SkippedNode, SchedulerDecision, no_decision, status_by_node, spec_leb,
  skipped_leb, node_conditions_true, add_dependencies, decide_checked, decide_node, decide_loop,
  decide,
}
use go_agent.Plan.Scheduler.Selection.{
  node_of, id_of, waits, runs, is_given_up, skipped_ids, conditions_hold, dependencies_of,
  decide_lem, conditions_true-hold,
}

-- The node is in the status and has ended.
unfoldable pub is_settled : Dict String PlanNodeStatus → String → Bool
is_settled nodes node_id = elim (get node_id nodes) [
  | none ↦ false
  | some node ↦ node_terminal node.lifecycle_state
]

-- Every edge comes from a node that stands earlier in the order.
unfoldable pub IsTopological : Dict String (List PlanEdgeSpec) → List String → List String → Type 0
IsTopological edges seen [] = Unit
IsTopological edges seen (node_id ∷ rest) =
    All (λ (edge : PlanEdgeSpec). contains edge.from seen ≡ true) (get_or [] node_id edges)
    × IsTopological edges (seen ++ node_id ∷ []) rest

abbrev pub any_waits : Dict String PlanNodeStatus → List String → Bool
any_waits nodes [] = false
any_waits nodes (node_id ∷ rest) = waits nodes node_id || any_waits nodes rest

module _ (compiler : ExpressionCompiler) (nodes : Dict String PlanNodeStatus) (vars : Vars)
    (node : PlanNodeSpec) where
  evaluate_edge-settled :
      (edge : PlanEdgeSpec) (before : EdgeCounts) {after : EdgeCounts}
      → is_settled nodes edge.from ≡ true
      → evaluate_edge compiler nodes vars node edge before ≡ ok after
      → after.waiting ≡ before.waiting
  unfolding is_settled evaluate_edge count_edge
  evaluate_edge-settled edge before settled h = ground arith

  evaluate_edges-settled :
      (edges : List PlanEdgeSpec) (before : EdgeCounts) {after : EdgeCounts}
      → All (λ (edge : PlanEdgeSpec). is_settled nodes edge.from ≡ true) edges
      → evaluate_edges compiler nodes vars node edges before ≡ ok after
      → after.waiting ≡ before.waiting
  unfolding evaluate_edges
  evaluate_edges-settled [] before settled h = ground arith
  evaluate_edges-settled (edge ∷ edges) before settled h =
      let (next, here, there) =
        bind_ok (evaluate_edge compiler nodes vars node edge before)
          (evaluate_edges compiler nodes vars node edges) h in
      evaluate_edges-settled edges next settled.1 there
      ∙ evaluate_edge-settled edge before settled.0 here

  join_counts-settled :
      (join : PlanJoinStrategy) (counts : EdgeCounts) {d : DependencyEvaluation}
      → counts.waiting ≡ 0
      → join_counts join counts ≡ ok d
      → (d.ready || d.impossible) ≡ true
  unfolding join_counts normalize_join evaluate_all_join evaluate_any_join
  join_counts-settled join counts settled h = ground arith

  evaluate_dependencies-settled :
      (edges : List PlanEdgeSpec) {d : DependencyEvaluation}
      → All (λ (edge : PlanEdgeSpec). is_settled nodes edge.from ≡ true) edges
      → evaluate_dependencies compiler node edges nodes vars ≡ ok d
      → (d.ready || d.impossible) ≡ true
  unfolding evaluate_dependencies
  evaluate_dependencies-settled [] settled h = ground arith
  evaluate_dependencies-settled (edge ∷ edges) settled h =
      let (counts, counted, joined) =
        bind_ok (evaluate_edges compiler nodes vars node (edge ∷ edges) no_counts)
          (join_counts node.policy.join) h in
      join_counts-settled node.policy.join counts
        (evaluate_edges-settled (edge ∷ edges) no_counts settled counted) joined

module _ (compiler : ExpressionCompiler) (plan : ExecutablePlan)
    (nodes : Dict String PlanNodeStatus) (vars : Vars) where
  acts : String → Bool
  acts node_id =
      runs compiler plan nodes vars node_id || is_given_up compiler plan nodes vars node_id

  decide_checked-acts :
      (node_id : String) (before : SchedulerDecision) (holds : Bool)
      (traces : List ConditionEvaluationTrace) {after : SchedulerDecision}
      → waits nodes node_id ≡ true
      → holds ≡ conditions_hold compiler vars (node_of plan node_id).conditions
      → All
          (λ (edge : PlanEdgeSpec). is_settled nodes edge.from ≡ true)
          (get_or [] node_id plan.edges_by_to)
      → decide_checked compiler plan nodes vars node_id
          (node_of plan node_id)
          before
          (holds, traces)
        ≡ ok after
      → acts node_id ≡ true
  unfolding decide_checked acts runs is_given_up
  decide_checked-acts node_id before true traces waiting held settled h =
      let (d, evaluated, later) =
        bind_ok (dependencies_of compiler plan nodes vars node_id)
          (λ dependencies. ok (
            add_dependencies (node_of plan node_id) dependencies
              (record before { condition_traces = before.condition_traces ++ traces })))
          h in
      let decided =
        evaluate_dependencies-settled compiler nodes vars (node_of plan node_id)
          (get_or [] node_id plan.edges_by_to) settled evaluated in
      ground (arith, decided, evaluated)
  decide_checked-acts node_id before false traces waiting held settled h = ground arith

  -- A waiting node whose parents have ended is run or given up.
  decide_node-acts :
      (node_id : String) (before : SchedulerDecision) {after : SchedulerDecision}
      → waits nodes node_id ≡ true
      → All
          (λ (edge : PlanEdgeSpec). is_settled nodes edge.from ≡ true)
          (get_or [] node_id plan.edges_by_to)
      → decide_node compiler plan nodes vars node_id before ≡ ok after
      → acts node_id ≡ true
  unfolding decide_node node_conditions_true
  decide_node-acts node_id before waiting settled h =
      let ((holds, traces), evaluated, later) =
        bind_ok (node_conditions_true compiler (node_of plan node_id) vars)
          (decide_checked compiler plan nodes vars node_id (node_of plan node_id) before)
          (rw waiting at h) in
      decide_checked-acts node_id before holds traces waiting
        (conditions_true-hold compiler vars (node_of plan node_id) (node_of plan node_id).conditions
          [] evaluated)
        settled later

  abbrev any_acts : List String → Bool
  any_acts [] = false
  any_acts (node_id ∷ rest) = acts node_id || any_acts rest

  All-settled :
      (edges : List PlanEdgeSpec) (seen : List String)
      → ((k : String) → contains k seen ≡ true → is_settled nodes k ≡ true)
      → All (λ (edge : PlanEdgeSpec). contains edge.from seen ≡ true) edges
      → All (λ (edge : PlanEdgeSpec). is_settled nodes edge.from ≡ true) edges
  All-settled edges seen ended from_seen =
      All-map (λ (edge : PlanEdgeSpec). contains edge.from seen ≡ true)
        (λ (edge : PlanEdgeSpec). is_settled nodes edge.from ≡ true) edges (λ edge. ended edge.from)
        from_seen

  decide_loop-acts :
      (order seen : List String) (before : SchedulerDecision) {after : SchedulerDecision}
      → IsTopological plan.edges_by_to seen order
      → ((k : String) → contains k seen ≡ true → is_settled nodes k ≡ true)
      → All (λ node_id. (waits nodes node_id || is_settled nodes node_id) ≡ true) order
      → any_waits nodes order ≡ true
      → decide_loop compiler plan nodes vars order before ≡ ok after
      → any_acts order ≡ true
  unfolding decide_loop IsTopological contains
  decide_loop-acts [] seen before topological ended idle waiting h = cc
  decide_loop-acts (node_id ∷ rest) seen before topological ended idle waiting h =
      let (next, here, there) =
        bind_ok (decide_node compiler plan nodes vars node_id before)
          (decide_loop compiler plan nodes vars rest) h in
      elim (Bool-cases (waits nodes node_id)) [
        | inl waits_here ↦
            let acted =
              decide_node-acts node_id before waits_here
                (All-settled (get_or [] node_id plan.edges_by_to) seen ended topological.0) here in
            rw acted refl
        | inr other ↦
            let settled : is_settled nodes node_id ≡ true = rw other at idle.0 in
            let later =
              decide_loop-acts rest (seen ++ node_id ∷ []) next topological.1
                (λ k among. elim (Bool-cases (key_eq node_id k)) [
                  | inl same ↦
                      subst (λ j. is_settled nodes j ≡ true) ((key_iff node_id k).0 same) settled
                  | inr different ↦ ended k (ground (arith, contains_snoc k node_id seen, among))
                ])
                idle.1 (rw other at waiting) there in
            ground (arith, later)
      ]

  acts-nonempty :
      (order : List String)
      → any_acts order ≡ true
      → 0
        < length (select (runs compiler plan nodes vars) order)
          + length (select (is_given_up compiler plan nodes vars) order)
  unfolding acts
  acts-nonempty [] h = cc
  acts-nonempty (node_id ∷ rest) h = ground (arith, acts-nonempty rest)

length-map : {A B : Type 0} (f : A → B) (xs : List A) → length (map f xs) ≡ length xs
length-map f [] = refl
length-map f (x ∷ xs) = ap suc (length-map f xs)

length-skipped_ids : (nodes : List SkippedNode) → length (skipped_ids nodes) ≡ length nodes
length-skipped_ids = length-map (λ node. node.node_id)

-- When the order of a plan is topological, every node of it either waits or has ended, and some node
-- waits, a decision without error runs or skips at least one node.
pub decide-progress :
    (compiler : ExpressionCompiler) (plan : ExecutablePlan) (status : RunPlanStatus) (vars : Vars)
    {decision : SchedulerDecision}
    → IsTopological plan.edges_by_to [] plan.order
    → All
        (λ node_id.
          (waits (status_by_node [] status.nodes) node_id
            || is_settled (status_by_node [] status.nodes) node_id)
          ≡ true)
        plan.order
    → any_waits (status_by_node [] status.nodes) plan.order ≡ true
    → decide compiler plan status vars ≡ ok decision
    → 0 < length decision.ready + length decision.skipped
unfolding decide contains
decide-progress compiler plan status vars {decision = decision} topological idle waiting h =
    let nodes = status_by_node [] status.nodes in
    let (found, looped, sorted) =
      bind_ok (decide_loop compiler plan nodes vars plan.order no_decision)
        (λ decision. ok (record decision {
          ready = sort_by spec_leb decision.ready;
          skipped = sort_by skipped_leb decision.skipped;
        }))
        h in
    let acted = acts-nonempty compiler plan nodes vars plan.order (
      decide_loop-acts compiler plan nodes vars plan.order [] no_decision topological
        (λ k among. cc) idle waiting looped) in
    let facts = decide_lem compiler plan status vars h in
    let chosen = select (runs compiler plan nodes vars) plan.order in
    let lost = select (is_given_up compiler plan nodes vars) plan.order in
    let ready_length : length decision.ready ≡ length chosen =
      ap length facts.0
      ∙ length-sort_by spec_leb (map (node_of plan) chosen)
      ∙ length-map (node_of plan) chosen in
    let skipped_length : length decision.skipped ≡ length lost =
      sym (length-skipped_ids decision.skipped)
      ∙ ap length facts.1
      ∙ length-sort_by str_leb (map (id_of plan) lost)
      ∙ length-map (id_of plan) lost in
    ground (arith, acted, ready_length, skipped_length)
