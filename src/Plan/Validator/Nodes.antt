-- ===== src/Plan/Validator/Nodes.antt =====
-- The nodes of a plan (internal/usecase/agentosplan/validator.go, `validateNodes`, `validateNode`,
-- `validateNodeIdentity`, `validateNodeExpressions`, `validateNodeCapability`,
-- `validateNodeBatchLimits`, `batchSize`).
use go_agent.Prelude.{
  ℕ, suc, pos, ltb_ℤ, ◌==ℤ◌, String, is_empty, ◌||◌, List, [], ◌∷◌, Option, none, some, Error,
  Result, ok, err, errorf, wrapf, first_error, check, check_all, err_invalid_run_plan,
  err_invalid_run_spec, err_invalid_backend_ref, err_capability_not_found, if◌then◌else◌,
  string_key,
}
use go_agent.Prelude.Dict.{Dict, get, put, has}
use go_agent.Control.{Value, array, Items, nil, item, PlanNodeSpec, PlanJoinStrategy, InputMapping}
use go_agent.Plan.Validator.Contracts.{
  Validator, Capability, InputMappingSourceMode, validate_input_mapping_shape,
  validate_artifact_specs, validate_artifact_schema_refs, validate_raw_schema, compile_expression,
}

unfoldable pub validate_node_join : PlanNodeSpec → Option Error
validate_node_join node = elim node.policy.join [
  | PlanJoinStrategy.other name ↦ some (
      errorf err_invalid_run_plan "node %q has invalid join strategy %q" (node.node_id ∷ name ∷ []))
  | _ ↦ none
]

unfoldable pub validate_node_identity : PlanNodeSpec → Option Error
unfolding validate_node_join
validate_node_identity node =
    if is_empty node.node_id
    then some (errorf err_invalid_run_plan "node id is required" [])
    else if is_empty node.run.run_id
    then some (errorf err_invalid_run_spec "node %q run id is required" (node.node_id ∷ []))
    else if is_empty node.run.backend.kind || is_empty node.run.backend.name
    then some (errorf err_invalid_backend_ref "node %q backend is required" (node.node_id ∷ []))
    else validate_node_join node

abbrev default_batch_input_key : String
default_batch_input_key = "items"

abbrev items_length : Items → ℕ
items_length nil = 0
items_length (item value items) = suc (items_length items)

-- `reflect` finds an array in a decoded JSON value just where the value is one.
unfoldable pub batch_size : Value → Option ℕ
batch_size (array items) = some (items_length items)
batch_size value = none

unfoldable pub validate_node_batch_limits : PlanNodeSpec → Capability → Option Error
unfolding get batch_size
validate_node_batch_limits node capability =
    let limit = capability.limits.max_batch_items in
    let given = capability.limits.batch_input_key in
    let key = if is_empty given then default_batch_input_key else given in
    if limit ==ℤ pos 0 then none else elim (get key node.run.input) [
      | none ↦ some (
          errorf err_invalid_run_plan "node %q batch input %q is required"
            (node.node_id ∷ key ∷ []))
      | some value ↦ elim (batch_size value) [
        | none ↦ some (
            errorf err_invalid_run_plan "node %q batch input %q must be an array"
              (node.node_id ∷ key ∷ []))
        | some size ↦
            if ltb_ℤ limit (pos size)
            then some (
                errorf err_invalid_run_plan "node %q batch input %q exceeds max"
                  (node.node_id ∷ key ∷ []))
            else none
      ]
    ]

module _ (validator : Validator) where
  unfoldable pub validate_node_condition : PlanNodeSpec → String → Option Error
  unfolding compile_expression
  validate_node_condition node condition = elim (compile_expression validator condition) [
    | none ↦ none
    | some e ↦ some (wrapf "node %q" e)
  ]

  unfoldable pub validate_node_input : PlanNodeSpec → InputMapping → Option Error
  unfolding compile_expression validate_input_mapping_shape
  validate_node_input node mapping = elim (validate_input_mapping_shape "node %q" mapping) [
    | err e ↦ some e
    | ok InputMappingSourceMode.expression ↦
        elim (compile_expression validator mapping.expression) [
          | none ↦ none
          | some e ↦ some (wrapf "node %q input %q" e)
        ]
    | ok mode ↦ none
  ]

  unfoldable pub validate_node_expressions : PlanNodeSpec → Option Error
  unfolding validate_node_condition validate_node_input
  validate_node_expressions node =
      first_error (check_all (validate_node_condition node) node.conditions)
        (check_all (validate_node_input node) node.inputs)

  -- The test of the input of a node whose capability was found.
  unfoldable pub validate_found_capability : PlanNodeSpec → Capability → Option Error
  unfolding validate_raw_schema validate_node_batch_limits
  validate_found_capability node capability =
      if is_empty capability.input_schema
      then validate_node_batch_limits node capability
      else elim (validate_raw_schema validator capability.input_schema node.run.input) [
        | some e ↦ some (errorf err_invalid_run_plan "node %q input schema" (node.node_id ∷ []))
        | none ↦ validate_node_batch_limits node capability
      ]

  unfoldable pub validate_node_capability : PlanNodeSpec → Option Error
  unfolding validate_found_capability
  validate_node_capability node =
      if is_empty node.capability then none else elim validator.capabilities [
        | none ↦ some (
            errorf err_capability_not_found "node %q capability catalog is required"
              (node.node_id ∷ []))
        | some get_capability ↦ elim (get_capability node.run.backend node.capability) [
          | err e ↦ some e
          | ok none ↦ some (
              errorf err_capability_not_found "node %q capability %s/%s/%s" (
                node.node_id ∷ node.run.backend.kind ∷ node.run.backend.name ∷ node.capability
                ∷ []))
          | ok (some capability) ↦ validate_found_capability node capability
        ]
      ]

  unfoldable pub validate_node : PlanNodeSpec → Option Error
  unfolding validate_node_identity validate_node_expressions validate_artifact_specs
      validate_artifact_schema_refs validate_node_capability
  validate_node node = first_error (validate_node_identity node) (
      first_error (validate_node_expressions node) (
        first_error (validate_artifact_specs node.node_id [] node.outputs) (
          first_error (validate_artifact_schema_refs validator node.node_id node.outputs)
            (validate_node_capability node))))

  -- The loop of `validateNodes`.
  unfoldable pub validate_nodes :
      Dict String PlanNodeSpec → List PlanNodeSpec → Result (Dict String PlanNodeSpec)
  unfolding put has validate_node
  validate_nodes node_by_id [] = ok node_by_id
  validate_nodes node_by_id (node ∷ nodes) =
      let rest = validate_nodes (put node.node_id node node_by_id) nodes in
      check (validate_node node) (
        if has node.node_id node_by_id
        then err (errorf err_invalid_run_plan "duplicate node %q" (node.node_id ∷ []))
        else rest)
