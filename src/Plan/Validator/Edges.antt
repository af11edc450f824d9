-- ===== src/Plan/Validator/Edges.antt =====
-- The edges of a plan (internal/usecase/agentosplan/validator.go, `validateEdges`, `validateEdge`,
-- `validateEdgeIdentity`, `validateUniqueEdgeID`, `sortEdges`).
use go_agent.Prelude.{
  String, is_empty, str_leb, Bool, ◌||◌, not, List, [], ◌∷◌, ◌++◌, Option, none, some, Error,
  Result, ok, err, errorf, wrapf, check, check_all, ◌>>=◌, err_invalid_run_plan, if◌then◌else◌,
  string_key, key_eq,
}
use go_agent.Prelude.Dict.{Dict, get_or, put, has}
use go_agent.Prelude.Sort.{sort_by}
use go_agent.Control.{PlanNodeSpec, PlanEdgeSpec, EdgeTrigger, InputMapping}
use go_agent.Plan.Validator.Contracts.{
  Validator, InputMappingSourceMode, validate_input_mapping_shape, compile_expression,
}

abbrev pub IdSet : Type 0
IdSet = Dict String (Unit {0})

unfoldable pub validate_edge_trigger : PlanEdgeSpec → Option Error
validate_edge_trigger edge = elim edge.on [
  | EdgeTrigger.other name ↦
      some (errorf err_invalid_run_plan "edge %q has invalid trigger %q" (edge.edge_id ∷ name ∷ []))
  | _ ↦ none
]

unfoldable pub validate_edge_identity : PlanEdgeSpec → Dict String PlanNodeSpec → Option Error
unfolding has validate_edge_trigger
validate_edge_identity edge node_by_id =
    if is_empty edge.from || is_empty edge.to
    then some (errorf err_invalid_run_plan "edge endpoints are required" [])
    else if not (has edge.from node_by_id)
    then some (errorf err_invalid_run_plan "edge from unknown node %q" (edge.from ∷ []))
    else if not (has edge.to node_by_id)
    then some (errorf err_invalid_run_plan "edge to unknown node %q" (edge.to ∷ []))
    else if key_eq edge.from edge.to
    then some (errorf err_invalid_run_plan "self edge on node %q" (edge.from ∷ []))
    else validate_edge_trigger edge

-- The set of edge ids, which Go changes in place, is returned.
unfoldable pub validate_unique_edge_id : PlanEdgeSpec → IdSet → Result IdSet
unfolding put has
validate_unique_edge_id edge edge_ids =
    if is_empty edge.edge_id
    then ok edge_ids
    else if has edge.edge_id edge_ids
    then err (errorf err_invalid_run_plan "duplicate edge %q" (edge.edge_id ∷ []))
    else ok (put edge.edge_id tt edge_ids)

module _ (validator : Validator) where
  unfoldable pub validate_edge_mapping : PlanEdgeSpec → InputMapping → Option Error
  unfolding validate_input_mapping_shape
  validate_edge_mapping edge mapping = elim (validate_input_mapping_shape "edge %q" mapping) [
    | err e ↦ some e
    | ok InputMappingSourceMode.artifact ↦
        if key_eq mapping.source_node_id edge.from
        then none
        else some (
            errorf err_invalid_run_plan "edge %q mapping source must match edge source"
              (edge.edge_id ∷ []))
    | ok mode ↦ none
  ]

  unfoldable pub validate_edge_condition : PlanEdgeSpec → Option Error
  unfolding compile_expression
  validate_edge_condition edge =
      if is_empty edge.condition then none else elim (compile_expression validator edge.condition) [
        | none ↦ none
        | some e ↦ some (wrapf "edge %q" e)
      ]

  unfoldable pub validate_edge : PlanEdgeSpec → Dict String PlanNodeSpec → IdSet → Result IdSet
  unfolding validate_edge_identity validate_unique_edge_id validate_edge_condition
      validate_edge_mapping
  validate_edge edge node_by_id edge_ids = check (validate_edge_identity edge node_by_id) (
      validate_unique_edge_id edge edge_ids >>= λ next.
      check (validate_edge_condition edge)
        (check (check_all (validate_edge_mapping edge) edge.input_mapping) (ok next)))

  -- The checks of the loop of `validateEdges`.
  unfoldable pub check_edges : Dict String PlanNodeSpec → IdSet → List PlanEdgeSpec → Result IdSet
  unfolding validate_edge
  check_edges node_by_id edge_ids [] = ok edge_ids
  check_edges node_by_id edge_ids (edge ∷ edges) =
      validate_edge edge node_by_id edge_ids >>= λ next. check_edges node_by_id next edges

-- The map that the loop fills, for one of the two ends of an edge.
unfoldable pub edges_by :
    (PlanEdgeSpec → String)
    → Dict String (List PlanEdgeSpec)
    → List PlanEdgeSpec
    → Dict String (List PlanEdgeSpec)
unfolding put get_or
edges_by end groups [] = groups
edges_by end groups (edge ∷ edges) =
    edges_by end (put (end edge) (get_or [] (end edge) groups ++ edge ∷ []) groups) edges

-- By source, then by target; the lists of one key agree on the end that the key names.
abbrev pub edge_leb : PlanEdgeSpec → PlanEdgeSpec → Bool
edge_leb a b = if key_eq a.from b.from then str_leb a.to b.to else str_leb a.from b.from

unfoldable pub sort_edges : Dict String (List PlanEdgeSpec) → Dict String (List PlanEdgeSpec)
unfolding sort_by
sort_edges [] = []
sort_edges ((id, edges) ∷ rest) = (id, sort_by edge_leb edges) ∷ sort_edges rest

-- The two maps of edges, by source and by target.
unfoldable pub validate_edges :
    Validator
    → List PlanEdgeSpec
    → Dict String PlanNodeSpec
    → Result (Dict String (List PlanEdgeSpec) × Dict String (List PlanEdgeSpec))
unfolding check_edges edges_by sort_edges
validate_edges validator edges node_by_id =
    check_edges validator node_by_id [] edges >>= λ edge_ids. ok (
      sort_edges (edges_by (λ edge. edge.from) [] edges),
      sort_edges (edges_by (λ edge. edge.to) [] edges),
    )
