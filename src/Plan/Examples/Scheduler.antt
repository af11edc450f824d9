-- ===== src/Plan/Examples/Scheduler.antt =====
-- The theorems of the scheduler at the small plan, whose first tick runs `draft`.
use go_agent.Prelude.{
  ◌≡◌, refl, String, str_leb, true, false, not, [], ◌∷◌, map, some, ok, is_ok, string_key, select,
}
use go_agent.Prelude.Dict.{Dict, get, get_or}
use go_agent.Prelude.Sort.{sort_by}
use go_agent.Prelude.Members.{contains}
use go_agent.Control.{PlanNodeStatus, NodeLifecycle, PlanJoinStrategy, zero_node_status}
use go_agent.Plan.Reducer.State.{new_state}
use go_agent.Plan.Scheduler.Trigger.{
  normalize_join, evaluate, node_terminal, edge_satisfied, edge_trigger,
}
use go_agent.Plan.Scheduler.Dependencies.{DependencyEvaluation, evaluate_dependencies}
use go_agent.Plan.Scheduler.Decide.{status_by_node, decide, spec_leb}
use go_agent.Plan.Scheduler.Join.{
  Outcome, outcomes, joins, is_lost, evaluate_dependencies-ok, evaluate_dependencies_lem,
  evaluate_dependencies-decides,
}
use go_agent.Plan.Scheduler.Selection.{node_of, id_of, runs, is_given_up, skipped_ids, decide_lem}
use go_agent.Plan.Scheduler.Exclusive.{decide-disjoint}
use go_agent.Plan.Examples.Data.{plan, lenient, first_tick, node_named, draft_review, fresh}

pub ticked : decide lenient plan fresh.status [] ≡ ok first_tick
unfolding decide new_state
ticked = refl

decide_lem_example :
    let nodes = status_by_node [] fresh.status.nodes in
    (first_tick.ready
      ≡ sort_by spec_leb (map (node_of plan) (select (runs lenient plan nodes []) plan.order)))
    × (skipped_ids first_tick.skipped
        ≡ sort_by str_leb
            (map (id_of plan) (select (is_given_up lenient plan nodes []) plan.order)))
decide_lem_example = decide_lem lenient plan fresh.status [] ticked

decide-disjoint_example : contains "draft" (skipped_ids first_tick.skipped) ≡ false
unfolding get_or contains
decide-disjoint_example =
    decide-disjoint lenient plan fresh.status [] "draft" (refl, (refl, tt)) ticked refl

-- The statuses once `draft` has succeeded.
abbrev ended : Dict String PlanNodeStatus
ended = ("draft", record zero_node_status { lifecycle_state = NodeLifecycle.succeeded }) ∷ []

abbrev lets_review : DependencyEvaluation
lets_review = record { ready = true; impossible = false; reason = ""; traces = [] }

draft_outcome : outcomes lenient ended [] (draft_review ∷ []) ≡ some (Outcome.satisfied ∷ [])
unfolding outcomes get node_terminal evaluate edge_satisfied edge_trigger
draft_outcome = refl

evaluated :
    evaluate_dependencies lenient (node_named "review" "run-2") (draft_review ∷ []) ended []
    ≡ ok lets_review
unfolding evaluate_dependencies
evaluated = refl

evaluate_dependencies_lem_example :
    (lets_review.ready ≡ joins (normalize_join PlanJoinStrategy.unset) (Outcome.satisfied ∷ []))
    × (lets_review.impossible
        ≡ is_lost (normalize_join PlanJoinStrategy.unset) (Outcome.satisfied ∷ []))
evaluate_dependencies_lem_example =
    evaluate_dependencies_lem lenient ended [] (node_named "review" "run-2") draft_review []
      draft_outcome evaluated

evaluate_dependencies-ok_example :
    is_ok (evaluate_dependencies lenient (node_named "review" "run-2") (draft_review ∷ []) ended [])
    ≡ true
evaluate_dependencies-ok_example =
    evaluate_dependencies-ok lenient ended [] (node_named "review" "run-2") (draft_review ∷ []) refl
      draft_outcome

evaluate_dependencies-decides_example : lets_review.impossible ≡ not lets_review.ready
evaluate_dependencies-decides_example =
    evaluate_dependencies-decides lenient ended [] (node_named "review" "run-2") draft_review []
      draft_outcome refl evaluated
