-- ===== src/Plan/Scheduler/Exclusive.antt =====
-- The nodes that a tick runs beside those that it skips (internal/usecase/agentosplan/scheduler.go).
use go_agent.Prelude.{
  String, str_leb, Bool, true, false, List, [], ◌∷◌, map, ok, string_key, key_eq, key_iff, ◌≡◌,
  refl, sym, ap, ◌∙◌, arith, select, All, Bool-cases, inl, inr,
}
use go_agent.Prelude.Sort.{sort_by, map-sort_by}
use go_agent.Prelude.Members.{contains, contains-sort_by}
use go_agent.Control.{PlanNodeSpec, RunPlanStatus}
use go_agent.Plan.Scheduler.Trigger.{ExpressionCompiler, Vars}
use go_agent.Plan.Scheduler.Decide.{ExecutablePlan, SchedulerDecision, status_by_node, decide}
use go_agent.Plan.Scheduler.Selection.{
  node_of, id_of, runs, is_given_up, skipped_ids, runs-exclusive, decide_lem,
}

-- Every id of the order names a node that carries it, as in a plan that the validator builds.
abbrev pub IsIndexed : ExecutablePlan → Type 0
IsIndexed plan = All (λ node_id. id_of plan node_id ≡ node_id) plan.order

abbrev pub spec_ids : List PlanNodeSpec → List String
spec_ids nodes = map (λ node. node.node_id) nodes

map_indexed :
    (plan : ExecutablePlan) (p : String → Bool) (order : List String)
    → All (λ node_id. id_of plan node_id ≡ node_id) order
    → map (id_of plan) (select p order) ≡ select p order
map_indexed plan p [] h = refl
map_indexed plan p (node_id ∷ rest) h = elim (Bool-cases (p node_id)) [
  | inl chosen ↦ rw (chosen, h.0, map_indexed plan p rest h.1) refl
  | inr other ↦ rw other (map_indexed plan p rest h.1)
]

spec_ids-map :
    (plan : ExecutablePlan) (order : List String)
    → spec_ids (map (node_of plan) order) ≡ map (id_of plan) order
spec_ids-map plan [] = refl
spec_ids-map plan (node_id ∷ rest) = ap (λ l. id_of plan node_id ∷ l) (spec_ids-map plan rest)

contains-select :
    (k : String) (p : String → Bool) (xs : List String)
    → contains k (select p xs) ≡ true
    → p k ≡ true
unfolding contains
contains-select k p [] h = cc
contains-select k p (x ∷ xs) h = elim (Bool-cases (p x)) [
  | inl chosen ↦ elim (Bool-cases (key_eq x k)) [
    | inl same ↦ ground (arith, key_iff x k)
    | inr other ↦ contains-select k p xs (rw (chosen, other) at h)
  ]
  | inr refused ↦ contains-select k p xs (rw refused at h)
]

-- In a plan whose order names nodes that carry their ids, no node that a decision runs is one that
-- it skips.
pub decide-disjoint :
    (compiler : ExpressionCompiler) (plan : ExecutablePlan) (status : RunPlanStatus) (vars : Vars)
    {decision : SchedulerDecision} (node_id : String)
    → IsIndexed plan
    → decide compiler plan status vars ≡ ok decision
    → contains node_id (spec_ids decision.ready) ≡ true
    → contains node_id (skipped_ids decision.skipped) ≡ false
decide-disjoint compiler plan status vars {decision = decision} node_id indexed h ready =
    let nodes = status_by_node [] status.nodes in
    let facts = decide_lem compiler plan status vars h in
    let chosen = runs compiler plan nodes vars in
    let lost = is_given_up compiler plan nodes vars in
    let ready_ids : spec_ids decision.ready ≡ sort_by str_leb (select chosen plan.order) =
      ap spec_ids facts.0
      ∙ map-sort_by str_leb (λ (node : PlanNodeSpec). node.node_id)
          (map (node_of plan) (select chosen plan.order))
      ∙ ap (sort_by str_leb) (
          spec_ids-map plan (select chosen plan.order)
          ∙ map_indexed plan chosen plan.order indexed) in
    let lost_ids : skipped_ids decision.skipped ≡ sort_by str_leb (select lost plan.order) =
      facts.1 ∙ ap (sort_by str_leb) (map_indexed plan lost plan.order indexed) in
    let runs_it = contains-select node_id chosen plan.order (
      sym (contains-sort_by node_id str_leb (select chosen plan.order))
      ∙ (sym (ap (contains node_id) ready_ids) ∙ ready)) in
    elim (Bool-cases (contains node_id (skipped_ids decision.skipped))) [
      | inr absent ↦ absent
      | inl present ↦
          let gives_it_up = contains-select node_id lost plan.order (
            sym (contains-sort_by node_id str_leb (select lost plan.order))
            ∙ (sym (ap (contains node_id) lost_ids) ∙ present)) in
          ground (arith, runs-exclusive compiler plan nodes vars node_id runs_it, gives_it_up)
    ]
