-- ===== src/Plan/Scheduler/Selection.antt =====
-- Which nodes `Decide` runs and which it gives up (internal/usecase/agentosplan/scheduler.go).
use mathlib.Core.List.{append_assoc, append-nil}
use go_agent.Prelude.{
  String, str_leb, Bool, true, false, ◌&&◌, ◌||◌, not, List, [], ◌∷◌, ◌++◌, map, Result, ok, err,
  bind_ok, ok_injective, if◌then◌else◌, string_key, ◌≡◌, refl, sym, ap, ◌∙◌, arith, select,
  Bool-cases, inl, inr,
}
use go_agent.Prelude.Dict.{Dict, get_or}
use go_agent.Prelude.Sort.{sort_by, map-sort_by}
use go_agent.Control.{PlanNodeSpec, PlanNodeStatus, RunPlanStatus, zero_node_status, zero_node_spec}
use go_agent.Plan.Scheduler.Trigger.{ExpressionCompiler, Vars, ConditionEvaluationTrace, evaluate}
use go_agent.Plan.Scheduler.Dependencies.{DependencyEvaluation, evaluate_dependencies}
use go_agent.Plan.Scheduler.Join.{evaluate_dependencies-exclusive}
use go_agent.Plan.Scheduler.Decide.{
  ExecutablePlan, SkippedNode, SchedulerDecision, no_decision, status_by_node, node_trace,
  conditions_true, node_conditions_true, is_waiting, add_dependencies, add_refused, decide_checked,
  decide_node, decide_loop, spec_leb, skipped_leb, decide,
}

abbrev pub is_true : Result Bool → Bool
is_true (ok holds) = holds
is_true (err e) = false

abbrev pub lets_run : Result DependencyEvaluation → Bool
lets_run (ok d) = d.ready
lets_run (err e) = false

abbrev pub gives_up : Result DependencyEvaluation → Bool
gives_up (ok d) = d.impossible
gives_up (err e) = false

-- A result that never lets run and gives up at once.
gives_up_lem :
    (r : Result DependencyEvaluation)
    → ((d : DependencyEvaluation) → r ≡ ok d → d.ready ≡ true → d.impossible ≡ false)
    → lets_run r ≡ true
    → gives_up r ≡ false
gives_up_lem (ok d) exclusive h = exclusive d refl h
gives_up_lem (err e) exclusive h = refl

abbrev pub skipped_ids : List SkippedNode → List String
skipped_ids nodes = map (λ node. node.node_id) nodes

skipped_ids-append :
    (nodes : List SkippedNode) (node_id reason : String)
    → skipped_ids (nodes ++ record { node_id = node_id; reason = reason } ∷ [])
      ≡ skipped_ids nodes ++ node_id ∷ []
skipped_ids-append [] node_id reason = refl
skipped_ids-append (node ∷ nodes) node_id reason =
    ap (λ l. node.node_id ∷ l) (skipped_ids-append nodes node_id reason)

abbrev pub node_of : ExecutablePlan → String → PlanNodeSpec
node_of plan node_id = get_or zero_node_spec node_id plan.node_by_id

abbrev pub id_of : ExecutablePlan → String → String
id_of plan node_id = (node_of plan node_id).node_id

abbrev pub waits : Dict String PlanNodeStatus → String → Bool
waits nodes node_id = is_waiting (get_or zero_node_status node_id nodes).lifecycle_state

abbrev pub conditions_hold : ExpressionCompiler → Vars → List String → Bool
conditions_hold compiler vars [] = true
conditions_hold compiler vars (condition ∷ rest) =
    is_true (evaluate compiler condition vars) && conditions_hold compiler vars rest

pub conditions_true-hold :
    (compiler : ExpressionCompiler) (vars : Vars) (node : PlanNodeSpec) (conditions : List String)
    (before : List ConditionEvaluationTrace) {holds : Bool} {traces : List ConditionEvaluationTrace}
    → conditions_true compiler node conditions vars before ≡ ok (holds, traces)
    → holds ≡ conditions_hold compiler vars conditions
unfolding conditions_true
conditions_true-hold compiler vars node [] before h = ground arith
conditions_true-hold compiler vars node (condition ∷ rest) before {holds = holds} {traces = traces}
      h =
    let (met, evaluated, later) =
      bind_ok (evaluate compiler condition vars)
        (λ met.
          let traced = before ++ node_trace node condition met ∷ [] in
          if met then conditions_true compiler node rest vars traced else ok (false, traced))
        h in
    let next =
      conditions_true-hold compiler vars node rest (before ++ node_trace node condition met ∷ [])
        {holds = holds} {traces = traces} in
    ground (arith, evaluated, later, next)

append_selected :
    {A B : Type 0} (f : A → B) (chosen : Bool) (a : A) (rest : List A) (xs : List B)
    → (if chosen then xs ++ f a ∷ [] else xs) ++ map f rest
      ≡ xs ++ map f (if chosen then a ∷ rest else rest)
append_selected f true a rest xs = append_assoc xs (f a ∷ []) (map f rest)
append_selected f false a rest xs = refl

module _ (compiler : ExpressionCompiler) (plan : ExecutablePlan)
    (nodes : Dict String PlanNodeStatus) (vars : Vars) where
  abbrev pub dependencies_of : String → Result DependencyEvaluation
  dependencies_of node_id =
      evaluate_dependencies compiler (node_of plan node_id) (get_or [] node_id plan.edges_by_to)
        nodes vars

  -- The node waits, its conditions hold and its dependencies let it run.
  unfoldable pub runs : String → Bool
  runs node_id =
      waits nodes node_id
      && (conditions_hold compiler vars (node_of plan node_id).conditions
          && lets_run (dependencies_of node_id))

  -- The node waits, and a condition is false or its dependencies give it up.
  unfoldable pub is_given_up : String → Bool
  is_given_up node_id =
      waits nodes node_id
      && (not (conditions_hold compiler vars (node_of plan node_id).conditions)
          || gives_up (dependencies_of node_id))

  Adds : String → SchedulerDecision → SchedulerDecision → Type 0
  Adds node_id before after =
      (after.ready
        ≡ (if runs node_id then before.ready ++ node_of plan node_id ∷ [] else before.ready))
      × (skipped_ids after.skipped ≡ (
          if is_given_up node_id
          then skipped_ids before.skipped ++ (node_of plan node_id).node_id ∷ []
          else skipped_ids before.skipped))

  decide_checked-Adds :
      (node_id : String) (decision : SchedulerDecision) (holds : Bool)
      (traces : List ConditionEvaluationTrace) {after : SchedulerDecision}
      → waits nodes node_id ≡ true
      → holds ≡ conditions_hold compiler vars (node_of plan node_id).conditions
      → decide_checked compiler plan nodes vars node_id
          (node_of plan node_id)
          decision
          (holds, traces)
        ≡ ok after
      → Adds node_id decision after
  unfolding decide_checked Adds runs is_given_up add_dependencies add_refused
  decide_checked-Adds node_id decision true traces waiting held h =
      let (d, evaluated, later) =
        bind_ok (dependencies_of node_id)
          (λ dependencies. ok (
            add_dependencies (node_of plan node_id) dependencies
              (record decision { condition_traces = decision.condition_traces ++ traces })))
          h in
      let appended = skipped_ids-append decision.skipped (node_of plan node_id).node_id d.reason in
      (ground arith, ground (arith, appended))
  decide_checked-Adds node_id decision false traces waiting held h =
      let appended =
        skipped_ids-append decision.skipped (node_of plan node_id).node_id
          "node conditions evaluated false" in
      (ground arith, ground (arith, appended))

  decide_node-Adds :
      (node_id : String) (decision : SchedulerDecision) {after : SchedulerDecision}
      → decide_node compiler plan nodes vars node_id decision ≡ ok after
      → Adds node_id decision after
  unfolding decide_node node_conditions_true Adds runs is_given_up
  decide_node-Adds node_id decision h = elim (Bool-cases (waits nodes node_id)) [
    | inl waiting ↦
        let ((holds, traces), evaluated, later) =
          bind_ok (node_conditions_true compiler (node_of plan node_id) vars)
            (decide_checked compiler plan nodes vars node_id (node_of plan node_id) decision)
            (rw waiting at h) in
        decide_checked-Adds node_id decision holds traces waiting
          (conditions_true-hold compiler vars (node_of plan node_id)
            (node_of plan node_id).conditions [] evaluated)
          later
    | inr settled ↦ (ground arith, ground arith)
  ]

  decide_loop_lem :
      (order : List String) (before : SchedulerDecision) {after : SchedulerDecision}
      → decide_loop compiler plan nodes vars order before ≡ ok after
      → (after.ready ≡ before.ready ++ map (node_of plan) (select runs order))
        × (skipped_ids after.skipped
            ≡ skipped_ids before.skipped ++ map (id_of plan) (select is_given_up order))
  unfolding decide_loop Adds
  decide_loop_lem [] before h = (
    ground (arith, append-nil before.ready),
    ground (arith, append-nil (skipped_ids before.skipped)),
  )
  decide_loop_lem (node_id ∷ rest) before h =
      let (next, here, there) =
        bind_ok (decide_node compiler plan nodes vars node_id before)
          (decide_loop compiler plan nodes vars rest) h in
      let added = decide_node-Adds node_id before here in
      let later = decide_loop_lem rest next there in
      (
        later.0
            ∙ ap (λ l. l ++ map (node_of plan) (select runs rest)) added.0
            ∙ append_selected (node_of plan) (runs node_id) node_id (select runs rest) before.ready,
        later.1
            ∙ ap (λ l. l ++ map (id_of plan) (select is_given_up rest)) added.1
            ∙ append_selected (id_of plan) (is_given_up node_id) node_id (select is_given_up rest)
                (skipped_ids before.skipped),
      )

  pub runs-exclusive : (node_id : String) → runs node_id ≡ true → is_given_up node_id ≡ false
  unfolding runs is_given_up
  runs-exclusive node_id h =
      let given_up = gives_up_lem (dependencies_of node_id) (
        evaluate_dependencies-exclusive compiler nodes vars (node_of plan node_id)
          (get_or [] node_id plan.edges_by_to)) in
      ground (arith, given_up)

-- A decision without error runs exactly the nodes of the order that wait, whose conditions hold and
-- whose dependencies let them run, and skips exactly those that wait and whose conditions fail or
-- whose dependencies give them up; both lists are sorted by node id.
pub decide_lem :
    (compiler : ExpressionCompiler) (plan : ExecutablePlan) (status : RunPlanStatus) (vars : Vars)
    {decision : SchedulerDecision}
    → decide compiler plan status vars ≡ ok decision
    → let nodes = status_by_node [] status.nodes in
      (decision.ready
        ≡ sort_by spec_leb (map (node_of plan) (select (runs compiler plan nodes vars) plan.order)))
      × (skipped_ids decision.skipped
          ≡ sort_by str_leb
              (map (id_of plan) (select (is_given_up compiler plan nodes vars) plan.order)))
unfolding decide
decide_lem compiler plan status vars {decision = decision} h =
    let nodes = status_by_node [] status.nodes in
    let (found, looped, sorted) =
      bind_ok (decide_loop compiler plan nodes vars plan.order no_decision)
        (λ decision. ok (record decision {
          ready = sort_by spec_leb decision.ready;
          skipped = sort_by skipped_leb decision.skipped;
        }))
        h in
    let facts = decide_loop_lem compiler plan nodes vars plan.order no_decision looped in
    let reached =
      ok_injective
        (record found {
          ready = sort_by spec_leb found.ready;
          skipped = sort_by skipped_leb found.skipped;
        })
        decision sorted in
    (
      sym (ap (λ (d : SchedulerDecision). d.ready) reached) ∙ ap (sort_by spec_leb) facts.0,
      sym (ap (λ (d : SchedulerDecision). skipped_ids d.skipped) reached)
          ∙ map-sort_by str_leb (λ (node : SkippedNode). node.node_id) found.skipped
          ∙ ap (sort_by str_leb) facts.1,
    )
