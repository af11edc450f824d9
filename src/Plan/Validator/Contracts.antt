-- ===== src/Plan/Validator/Contracts.antt =====
-- Input mappings, artifact contracts and capabilities, as the validator reads them
-- (internal/usecase/agentosplan/mapping_contract.go; artifact_contract.go, `ValidateArtifactSpecs`,
-- `ValidateArtifactSchemaRefs`, `artifactSchema`; agentos/control/plan.go, `Capability`).
use go_agent.Prelude.{
  ℤ, String, is_empty, ◌||◌, not, List, [], ◌∷◌, Option, none, some, Error, Result, ok, err, errorf,
  check_all, err_invalid_run_plan, err_invalid_artifact, if◌then◌else◌, string_key,
}
use go_agent.Prelude.Dict.{Dict, put, has}
use go_agent.Control.{Value, BackendRef, InputMapping, ArtifactSpec}
use go_agent.Plan.Scheduler.Trigger.{ExpressionCompiler}

-- A JSON text, which only the schema library reads; its emptiness is read as its length.
abbrev pub RawMessage : Type 0
RawMessage = String

pub record CapabilityLimits : Type 0 where
  pub max_batch_items : ℤ
  pub batch_input_key : String

-- The fields that the validator reads.
pub record Capability : Type 0 where
  pub input_schema : RawMessage
  pub limits : CapabilityLimits

-- `resolve_raw_schema` is the JSON schema library behind the function of that name: it parses and
-- resolves a schema, whose test of a value may fail. The catalogs are interfaces, `none` for nil;
-- a missing entry is `none`.
pub record Validator : Type 0 where
  pub expressions : ExpressionCompiler
  pub capabilities : Option (BackendRef → String → Result (Option Capability))
  pub artifact_schemas : Option (String → Result (Option RawMessage))
  pub resolve_raw_schema : RawMessage → Result (Dict String Value → Option Error)

pub data InputMappingSourceMode : Type 0 where
  expression artifact plan_input : InputMappingSourceMode

-- `scope` is the text that names the owner of the mapping in an error, without the owner's id.
unfoldable pub validate_input_mapping_shape : String → InputMapping → Result InputMappingSourceMode
validate_input_mapping_shape scope mapping =
    let has_expression = not (is_empty mapping.expression) in
    let has_artifact = not (is_empty mapping.source_artifact) in
    let has_source_node = not (is_empty mapping.source_node_id) in
    let has_source_path = not (is_empty mapping.source_path) in
    if is_empty mapping.target
    then err (errorf err_invalid_run_plan "%s input mapping target is required" (scope ∷ []))
    else if has_expression
    then if has_artifact || (has_source_node || has_source_path)
      then err (
          errorf err_invalid_run_plan "%s input mapping %q mixes expression with source fields"
            (scope ∷ mapping.target ∷ []))
      else ok InputMappingSourceMode.expression
    else if has_artifact
    then if has_source_node
      then ok InputMappingSourceMode.artifact
      else err (
          errorf err_invalid_artifact
            "%s input mapping %q source_node_id is required for source_artifact %q"
            (scope ∷ mapping.target ∷ mapping.source_artifact ∷ []))
    else if has_source_node
    then err (
        errorf err_invalid_run_plan "%s input mapping %q source_node_id requires source_artifact"
          (scope ∷ mapping.target ∷ []))
    else if has_source_path
    then ok InputMappingSourceMode.plan_input
    else err (
        errorf err_invalid_run_plan "%s input mapping %q source is required"
          (scope ∷ mapping.target ∷ []))

abbrev pub artifact_contract_error : String → String → List String → Error
artifact_contract_error node_id format args =
    if is_empty node_id
    then errorf err_invalid_artifact format args
    else errorf err_invalid_artifact format (node_id ∷ args)

unfoldable pub validate_artifact_specs :
    String → Dict {0, 0} String Unit → List ArtifactSpec → Option Error
unfolding put has
validate_artifact_specs node_id seen [] = none
validate_artifact_specs node_id seen (spec ∷ specs) =
    let rest = validate_artifact_specs node_id (put spec.name tt seen) specs in
    if is_empty spec.name
    then some (artifact_contract_error node_id "artifact name is required" [])
    else if is_empty spec.kind
    then some (artifact_contract_error node_id "artifact %q kind is required" (spec.name ∷ []))
    else if has spec.name seen
    then some (artifact_contract_error node_id "duplicate artifact %q" (spec.name ∷ []))
    else rest

module _ (validator : Validator) where
  unfoldable pub artifact_schema : String → ArtifactSpec → Result RawMessage
  artifact_schema node_id spec = elim validator.artifact_schemas [
    | none ↦ err (
        artifact_contract_error node_id
          "artifact %q schema_ref %q requires an artifact schema catalog"
          (spec.name ∷ spec.schema_ref ∷ []))
    | some get_artifact_schema ↦ elim (get_artifact_schema spec.schema_ref) [
      | err e ↦ err e
      | ok none ↦ err (
          artifact_contract_error node_id "artifact %q schema_ref %q was not found"
            (spec.name ∷ spec.schema_ref ∷ []))
      | ok (some raw) ↦ ok raw
    ]
  ]

  unfoldable pub validate_raw_schema_syntax : RawMessage → Option Error
  validate_raw_schema_syntax raw = elim (validator.resolve_raw_schema raw) [
    | err e ↦ some e
    | ok resolved ↦ none
  ]

  unfoldable pub validate_raw_schema : RawMessage → Dict String Value → Option Error
  validate_raw_schema raw value = elim (validator.resolve_raw_schema raw) [
    | err e ↦ some e
    | ok resolved ↦ resolved value
  ]

  -- The text of the library's error, which the message prints, is left out.
  unfoldable pub validate_artifact_schema_ref : String → ArtifactSpec → Option Error
  unfolding artifact_schema validate_raw_schema_syntax
  validate_artifact_schema_ref node_id spec =
      if is_empty spec.schema_ref then none else elim (artifact_schema node_id spec) [
        | err e ↦ some e
        | ok raw ↦ elim (validate_raw_schema_syntax raw) [
          | none ↦ none
          | some e ↦ some (
              artifact_contract_error node_id "artifact %q schema_ref %q is invalid"
                (spec.name ∷ spec.schema_ref ∷ []))
        ]
      ]

  unfoldable pub validate_artifact_schema_refs : String → List ArtifactSpec → Option Error
  unfolding validate_artifact_schema_ref
  validate_artifact_schema_refs node_id specs =
      check_all (validate_artifact_schema_ref node_id) specs

  unfoldable pub compile_expression : String → Option Error
  compile_expression source = if is_empty source then none else elim validator.expressions [
    | none ↦ none
    | some compile ↦ elim (compile source) [ err e ↦ some e | ok run ↦ none ]
  ]
