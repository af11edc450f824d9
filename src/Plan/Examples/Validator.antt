-- ===== src/Plan/Examples/Validator.antt =====
-- The theorems of the validator at the small plan.
use go_agent.Prelude.{
  true, ◌<◌, ◌≤ℤ◌, ◌<ℤ◌, pos, ◌+◌, ◌≡◌, refl, str_leb, [], ◌∷◌, ok, arith, string_key, length,
}
use go_agent.Prelude.Dict.{get_or}
use go_agent.Prelude.Sort.{sort_by}
use go_agent.Prelude.Members.{contains, Distinct}
use go_agent.Plan.Reducer.State.{new_state}
use go_agent.Plan.Scheduler.Decide.{status_by_node}
use go_agent.Plan.Scheduler.Progress.{is_settled}
use go_agent.Plan.Validator.Order.{topo_sort, topo_order, drain, roots}
use go_agent.Plan.Validator.Topological.{IsForward}
use go_agent.Plan.Validator.Sorted.{topo_sort_lem, children_of, first_counts}
use go_agent.Plan.Validator.Fuel.{topo_order-enough}
use go_agent.Plan.Validator.Validate.{validate}
use go_agent.Plan.Validator.Executable.{IsExecutable, validate-IsExecutable, validated_progress}
use go_agent.Control.{PlanDeltaSpec}
use go_agent.Plan.Scheduler.Decide.{ExecutablePlan}
use go_agent.Plan.Policy.Guards.{normalize_policy}
use go_agent.Plan.Validator.Paths.{has_dependency_path}
use go_agent.Plan.Validator.Search.{Leads}
use go_agent.Plan.Validator.Reachable.{has_dependency_path_lem}
use go_agent.Plan.Delta.{grown, apply_delta, apply_delta_lem}
use go_agent.Plan.Examples.Data.{
  spec, plan, fresh, lenient, first_tick, validator, node_named, draft_review,
}
use go_agent.Plan.Examples.Scheduler.{ticked}

validated : validate validator spec ≡ ok plan
unfolding validate
validated = refl

validate-IsExecutable_example : IsExecutable plan
validate-IsExecutable_example = validate-IsExecutable validator spec validated

validated_progress_example : 0 < length first_tick.ready + length first_tick.skipped
unfolding status_by_node is_settled new_state get_or
validated_progress_example =
    validated_progress validator spec lenient fresh.status [] validated (refl, (refl, tt)) refl
      ticked

sorted : topo_sort plan.node_by_id spec.edges ≡ ok plan.order
unfolding topo_sort
sorted = refl

topo_sort_lem_example :
    IsForward spec.edges [] plan.order
    × Distinct plan.order
    × (length plan.order ≡ length plan.node_by_id)
topo_sort_lem_example = topo_sort_lem plan.node_by_id spec.edges sorted

topo_order-enough_example :
    drain 5
      (children_of plan.node_by_id spec.edges)
      (first_counts plan.node_by_id spec.edges)
      (sort_by str_leb (roots (first_counts plan.node_by_id spec.edges)))
      []
    ≡ topo_order plan.node_by_id spec.edges
unfolding contains
topo_order-enough_example = topo_order-enough plan.node_by_id spec.edges 5 (refl, tt) (omega arith)

-- The delta that adds a node `publish` without edges.
abbrev publish : PlanDeltaSpec
publish = record { nodes = node_named "publish" "run-3" ∷ []; edges = [] }

abbrev published : ExecutablePlan
published = record {
  spec = grown spec publish;
  node_by_id =
      ("review", node_named "review" "run-2")
      ∷ ("draft", node_named "draft" "run-1")
      ∷ ("publish", node_named "publish" "run-3")
      ∷ [];
  edges_by_to = ("review", draft_review ∷ []) ∷ [];
  edges_by_from = ("draft", draft_review ∷ []) ∷ [];
  order = "draft" ∷ "publish" ∷ "review" ∷ [];
}

applied : apply_delta validator spec publish (pos 0) ≡ ok (grown spec publish, published)
unfolding apply_delta
applied = refl

apply_delta_lem_example :
    (grown spec publish ≡ grown spec publish)
    × (validate validator (grown spec publish) ≡ ok published)
    × (published.spec ≡ grown spec publish)
    × IsExecutable published
    × (pos (length spec.nodes + length publish.nodes) ≤ℤ (normalize_policy spec.policy).max_nodes)
    × (pos 0 <ℤ (normalize_policy spec.policy).max_expansions)
apply_delta_lem_example = apply_delta_lem validator spec publish (pos 0) applied

has_dependency_path_lem_example :
    (has_dependency_path plan.edges_by_from "draft" "review" ≡ true
      → Leads plan.edges_by_from "draft" "review")
    × (Leads plan.edges_by_from "draft" "review"
        → has_dependency_path plan.edges_by_from "draft" "review" ≡ true)
has_dependency_path_lem_example = has_dependency_path_lem plan.edges_by_from "draft" "review"
