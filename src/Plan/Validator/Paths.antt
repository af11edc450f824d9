-- ===== src/Plan/Validator/Paths.antt =====
-- The contracts of input mappings between nodes (internal/usecase/agentosplan/validator.go,
-- `validateInputMappingContracts` to `hasDependencyPath`).
use go_agent.Prelude.{
  ℕ, zero, suc, ◌+◌, String, is_empty, Bool, true, false, not, List, [], ◌∷◌, ◌++◌, Option, none,
  some, Error, errorf, first_error, check_all, err_invalid_run_plan, if◌then◌else◌, string_key,
  key_eq, length,
}
use go_agent.Prelude.Dict.{Dict, get, get_or, put, has}
use go_agent.Control.{
  PlanNodeSpec, PlanEdgeSpec, InputMapping, ArtifactSpec, RunPlanSpec, zero_node_spec,
}
use go_agent.Plan.Validator.Contracts.{artifact_contract_error}
use go_agent.Plan.Validator.Edges.{IdSet}

unfoldable pub declares : String → List ArtifactSpec → Bool
declares name [] = false
declares name (output ∷ outputs) = if key_eq output.name name then true else declares name outputs

unfoldable pub node_declares_artifact : PlanNodeSpec → String → Bool
unfolding declares
node_declares_artifact node name = declares name node.outputs

-- The loop over the edges of the current node: whether one leads to the goal, and the ids visited
-- and queued behind it.
unfoldable pub visit : String → List PlanEdgeSpec → IdSet → List String → Bool × IdSet × List String
unfolding put has
visit goal [] visited queue = (false, visited, queue)
visit goal (edge ∷ edges) visited queue =
    let skipped = visit goal edges visited queue in
    let queued = visit goal edges (put edge.to tt visited) (queue ++ edge.to ∷ []) in
    if key_eq edge.to goal
    then (true, visited, queue)
    else if has edge.to visited
    then skipped
    else queued

-- The loop over the queue.
unfoldable pub search_path :
    ℕ → Dict String (List PlanEdgeSpec) → String → IdSet → List String → Bool
unfolding visit get_or
search_path zero edges_by_from goal visited queue = false
search_path (suc fuel) edges_by_from goal visited [] = false
search_path (suc fuel) edges_by_from goal visited (current ∷ queue) =
    let (found, seen, grown) = visit goal (get_or [] current edges_by_from) visited queue in
    let rest = search_path fuel edges_by_from goal seen grown in if found then true else rest

-- The edges of all keys.
abbrev pub edge_total : Dict String (List PlanEdgeSpec) → ℕ
edge_total [] = 0
edge_total ((id, edges) ∷ rest) = length edges + edge_total rest

unfoldable pub has_dependency_path : Dict String (List PlanEdgeSpec) → String → String → Bool
unfolding search_path put
has_dependency_path edges_by_from from to =
    search_path (suc (edge_total edges_by_from)) edges_by_from to (put from tt []) (from ∷ [])

module _ (node_by_id : Dict String PlanNodeSpec)
    (edges_by_from : Dict String (List PlanEdgeSpec)) where
  unfoldable pub validate_artifact_mapping_source :
      PlanNodeSpec → PlanNodeSpec → InputMapping → Option Error
  unfolding node_declares_artifact has_dependency_path
  validate_artifact_mapping_source node source mapping =
      if key_eq source.node_id node.node_id
      then some (
          errorf err_invalid_run_plan "node %q input %q cannot map an artifact from the same node"
            (node.node_id ∷ mapping.target ∷ []))
      else if not (node_declares_artifact source mapping.source_artifact)
      then some (
          artifact_contract_error source.node_id
            "artifact %q is not declared for mapping into node %q"
            (mapping.source_artifact ∷ node.node_id ∷ []))
      else if not (has_dependency_path edges_by_from source.node_id node.node_id)
      then some (
          errorf err_invalid_run_plan
            "node %q input %q requires a dependency path from source node %q"
            (node.node_id ∷ mapping.target ∷ source.node_id ∷ []))
      else none

  unfoldable pub validate_node_input_mapping : PlanNodeSpec → InputMapping → Option Error
  unfolding get validate_artifact_mapping_source
  validate_node_input_mapping node mapping =
      if is_empty mapping.source_artifact
      then none
      else elim (get mapping.source_node_id node_by_id) [
        | none ↦ some (
            errorf err_invalid_run_plan "node %q input %q source node %q is unknown"
              (node.node_id ∷ mapping.target ∷ mapping.source_node_id ∷ []))
        | some source ↦ validate_artifact_mapping_source node source mapping
      ]

  unfoldable pub validate_node_input_mapping_contracts : PlanNodeSpec → Option Error
  unfolding validate_node_input_mapping
  validate_node_input_mapping_contracts node =
      check_all (validate_node_input_mapping node) node.inputs

  unfoldable pub validate_edge_input_mapping : PlanEdgeSpec → InputMapping → Option Error
  unfolding get_or node_declares_artifact
  validate_edge_input_mapping edge mapping =
      let source = get_or zero_node_spec edge.from node_by_id in
      if is_empty mapping.source_artifact
      then none
      else if node_declares_artifact source mapping.source_artifact
      then none
      else some (
          artifact_contract_error source.node_id
            "artifact %q is not declared for edge %q mapping into node %q"
            (mapping.source_artifact ∷ edge.edge_id ∷ edge.to ∷ []))

  unfoldable pub validate_edge_input_mapping_contracts : PlanEdgeSpec → Option Error
  unfolding validate_edge_input_mapping
  validate_edge_input_mapping_contracts edge =
      check_all (validate_edge_input_mapping edge) edge.input_mapping

  unfoldable pub validate_input_mapping_contracts : RunPlanSpec → Option Error
  unfolding validate_node_input_mapping_contracts validate_edge_input_mapping_contracts
  validate_input_mapping_contracts spec =
      first_error (check_all validate_node_input_mapping_contracts spec.nodes)
        (check_all validate_edge_input_mapping_contracts spec.edges)
