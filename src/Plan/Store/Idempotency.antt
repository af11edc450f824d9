-- ===== src/Plan/Store/Idempotency.antt =====
-- The tests that a repeated request is the request that claimed its key
-- (internal/usecase/agentosplan/idempotency.go, the `Validate` functions and the normalizations).
use go_agent.Prelude.{
  ◌+◌, ◌-◌, ◌%◌, ltb, ◌==◌, pos, String, is_empty, Bool, not, key_eq, key_iff, key_refl, string_key,
  List, [], ◌∷◌, map, Option, none, some, Error, Result, ok, err, errorf, err_invalid_run_plan,
  first_error, check_all, if◌then◌else◌, ◌≡◌, refl, sym, ap, arith,
}
use go_agent.Prelude.Dict.{Dict, get, put}
use go_agent.Prelude.Members.{contains}
use go_agent.Control.{Time, RunPlanSpec, PlanNodeSpec, PlanEdgeSpec}
use go_agent.Plan.Store.Records.{PlanEvent}
use go_agent.Plan.Store.Codec.{Codec, or_message, json_key, plan_state_identity}

-- `Time.Round(time.Microsecond)`, which rounds a half up. The zero time is left as it is.
unfoldable pub normalize_durable_timestamp : Time → Time
normalize_durable_timestamp t =
    let r = t % 1000 in if t == 0 then t else if ltb (r + r) 1000 then t - r else t + (1000 - r)

unfoldable pub normalize_plan_event_append_request : PlanEvent → PlanEvent
unfolding normalize_durable_timestamp
normalize_plan_event_append_request event = record event {
  event_id = "";
  sequence = pos 0;
  timestamp = normalize_durable_timestamp event.timestamp;
}

-- The two documents, each behind its message, must be the same bytes.
abbrev pub same_json : Error → Result String → Result String → Option Error
same_json different (err e) requested = some e
same_json different (ok existing) (err e) = some e
same_json different (ok existing) (ok requested) =
    if key_eq existing requested then none else some different

-- Documents that are the same.
pub same_json_ok :
    (different e f : Error) (a b : Result String)
    → same_json different (or_message e a) (or_message f b) ≡ none
    → (json : String) × (a ≡ ok json) × (b ≡ ok json)
same_json_ok different e f (err cause) b h = cc
same_json_ok different e f (ok json) (err cause) h = cc
same_json_ok different e f (ok json) (ok other) h =
    (json, refl, ap ok (sym ((key_iff json other).0 (ground arith))))

pub same_json_refl :
    (different e f : Error) (a : Result String) {json : String}
    → a ≡ ok json
    → same_json different (or_message e a) (or_message f a) ≡ none
same_json_refl different e f (err cause) h = cc
same_json_refl different e f (ok json) h = rw (key_refl json) refl

abbrev pub require : Bool → Error → Option Error
require b e = if b then none else some e

abbrev pub belongs : String → String → String → Option Error
belongs message existing requested =
    require (key_eq existing requested) (errorf err_invalid_run_plan message (existing ∷ []))

-- `requestedNodes`: the last node of an identifier stands.
unfoldable pub requested_nodes :
    Dict String PlanNodeSpec → List PlanNodeSpec → Dict String PlanNodeSpec
unfolding put
requested_nodes d [] = d
requested_nodes d (node ∷ nodes) = requested_nodes (put node.node_id node d) nodes

module _ (codec : Codec) where
  -- The two requests are the same document.
  unfoldable pub same_request : RunPlanSpec → RunPlanSpec → Option Error
  same_request existing requested =
      same_json
        (errorf err_invalid_run_plan "plan %q idempotency key was reused with a different request"
          (existing.plan_id ∷ []))
        (or_message (errorf err_invalid_run_plan "marshal existing plan start request: %w" [])
          (codec.marshal_spec existing))
        (or_message (errorf err_invalid_run_plan "marshal requested plan start request: %w" [])
          (codec.marshal_spec requested))

  unfoldable pub validate_plan_start_idempotency : RunPlanSpec → RunPlanSpec → Option Error
  unfolding same_request
  validate_plan_start_idempotency existing requested =
      if not (key_eq existing.plan_id requested.plan_id)
      then some (
          errorf err_invalid_run_plan "plan idempotency key belongs to plan %q"
            (existing.plan_id ∷ []))
      else if not (key_eq existing.idempotency_key requested.idempotency_key)
      then some (
          errorf err_invalid_run_plan "plan %q was started with a different idempotency key"
            (existing.plan_id ∷ []))
      else same_request existing requested

  unfoldable pub same_node : String → Dict String PlanNodeSpec → PlanNodeSpec → Option Error
  unfolding get
  same_node plan_id requested node = elim (get node.node_id requested) [
    | none ↦ some (
        errorf err_invalid_run_plan "plan %q removed existing node %q"
          (plan_id ∷ node.node_id ∷ []))
    | some found ↦
        require (key_eq (json_key (codec.marshal_node node)) (json_key (codec.marshal_node found)))
          (errorf err_invalid_run_plan "plan %q changed existing node %q"
            (plan_id ∷ node.node_id ∷ []))
  ]

  unfoldable pub same_edge : String → List String → PlanEdgeSpec → Option Error
  unfolding contains
  same_edge plan_id requested edge =
      require (contains (json_key (codec.marshal_edge edge)) requested) (
        errorf err_invalid_run_plan "plan %q removed or changed existing edge %q"
          (plan_id ∷ edge.edge_id ∷ []))

  unfoldable pub validate_topology_expansion : RunPlanSpec → RunPlanSpec → Option Error
  unfolding requested_nodes same_node same_edge
  validate_topology_expansion existing requested =
      first_error
        (check_all (same_node existing.plan_id (requested_nodes [] requested.nodes)) existing.nodes)
        (check_all
          (same_edge existing.plan_id
            (map (λ edge. json_key (codec.marshal_edge edge)) requested.edges))
          existing.edges)

  -- The immutable fields of the two plans are the same document.
  unfoldable pub same_immutable : RunPlanSpec → RunPlanSpec → Option Error
  same_immutable existing requested =
      same_json
        (errorf err_invalid_run_plan "plan %q state changed immutable fields"
          (existing.plan_id ∷ []))
        (or_message (errorf err_invalid_run_plan "marshal existing plan state identity: %w" [])
          (codec.marshal_state_identity (plan_state_identity existing)))
        (or_message (errorf err_invalid_run_plan "marshal requested plan state identity: %w" [])
          (codec.marshal_state_identity (plan_state_identity requested)))

  unfoldable pub validate_plan_state_identity : RunPlanSpec → RunPlanSpec → Option Error
  unfolding same_immutable validate_topology_expansion
  validate_plan_state_identity existing requested =
      if not (key_eq existing.plan_id requested.plan_id)
      then some
          (errorf err_invalid_run_plan "plan state belongs to plan %q" (existing.plan_id ∷ []))
      else if not (key_eq existing.idempotency_key requested.idempotency_key)
      then some (
          errorf err_invalid_run_plan "plan %q state has a different idempotency key"
            (existing.plan_id ∷ []))
      else first_error (same_immutable existing requested)
          (validate_topology_expansion existing requested)

unfoldable pub validate_plan_transition_idempotency : String → String → Option Error
validate_plan_transition_idempotency existing_digest requested_digest =
    if is_empty requested_digest
    then some (errorf err_invalid_run_plan "requested transition snapshot digest is required" [])
    else if is_empty existing_digest
    then some (
        errorf err_invalid_run_plan
          "transition idempotency key was not claimed by a reducer snapshot" [])
    else require (key_eq existing_digest requested_digest) (
        errorf err_invalid_run_plan
          "transition idempotency key was reused with a different reducer snapshot" [])
