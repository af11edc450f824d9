-- ===== src/Action/Memory.antt =====
-- The in-process store of governed actions (internal/usecase/agentosaction/memory_store.go,
-- idempotency.go). A call returns its result and the store that it leaves behind; the lock makes it
-- one step, and copies are the values.
use go_agent.Prelude.{
  String, is_empty, Bool, true, false, not, ◌||◌, key_eq, string_key, [], ◌∷◌, none, some, Option,
  Error, Result, ok, err, errorf, err_invalid_governed_action, err_invalid_governed_action_scope,
  check, if◌then◌else◌,
}
use go_agent.Prelude.Dict.{get, get_or, put}
use go_agent.Ledger.Records.{resource_key}
use go_agent.Action.Records.{
  ActionRef, GovernedActionSpec, GovernedActionStatus, ActionStartKey, ActionStatusKey,
  action_start_key, action_status_key,
}
use go_agent.Action.Validate.{validate_governed_action_spec, validate_action_ref}
use go_agent.Action.State.{MemoryStore, zero_status, zero_spec, action_start_key_from_spec}

unfoldable pub normalize_action_status :
    GovernedActionSpec → GovernedActionStatus → GovernedActionStatus
normalize_action_status spec status = record status {
  action_id = spec.action_id;
  account_id = spec.account_id;
  project_id = spec.project_id;
  process_id = spec.process_id;
  resource = spec.resource;
  kind = spec.kind;
}

unfoldable pub validate_action_tenant_access : ActionRef → GovernedActionSpec → Option Error
validate_action_tenant_access ref spec =
    if not (key_eq ref.account_id spec.account_id) || not (key_eq ref.project_id spec.project_id)
    then some (
        errorf err_invalid_governed_action_scope "action %q is outside tenant scope"
          (ref.action_id ∷ []))
    else none

unfoldable pub validate_action_status_scope :
    GovernedActionStatus → GovernedActionSpec → Option Error
validate_action_status_scope status spec =
    if not (key_eq status.account_id spec.account_id)
      || not (key_eq status.project_id spec.project_id)
    then some (
        errorf err_invalid_governed_action_scope "action %q status is outside tenant scope"
          (status.action_id ∷ []))
    else none

-- `none` where no action has the id.
unfoldable pub get_action :
    ActionRef → MemoryStore → Result (Option (GovernedActionSpec × GovernedActionStatus))
unfolding validate_action_ref get get_or validate_action_tenant_access
get_action ref s = check (validate_action_ref ref) (elim (get ref.action_id s.specs) [
  | none ↦ ok none
  | some spec ↦
      check (validate_action_tenant_access ref spec)
        (ok (some (spec, get_or zero_status ref.action_id s.statuses)))
])

unfoldable pub validate_update_action_status_input : GovernedActionStatus → String → Option Error
validate_update_action_status_input status idempotency_key =
    if is_empty idempotency_key
    then some (errorf err_invalid_governed_action "status idempotency key is required" [])
    else if is_empty status.action_id || is_empty status.account_id || is_empty status.project_id
    then some (errorf err_invalid_governed_action "action status scope is required" [])
    else none

abbrev pub status_key_of : GovernedActionStatus → String → ActionStatusKey
status_key_of status key = record { action_id = status.action_id; idempotency_key = key }

abbrev pub write_status : ActionStatusKey → GovernedActionStatus → MemoryStore → MemoryStore
write_status key status s = record s {
  statuses = put key.action_id status s.statuses;
  status_keys = put key status s.status_keys;
}

unfoldable pub update_action_status_locked :
    GovernedActionStatus → String → MemoryStore → Result GovernedActionStatus × MemoryStore
unfolding get put validate_action_status_scope normalize_action_status
update_action_status_locked status key s = elim (get (status_key_of status key) s.status_keys) [
  | some existing ↦ (ok existing, s)
  | none ↦ elim (get status.action_id s.specs) [
    | none ↦ (
      err (errorf err_invalid_governed_action_scope "action %q not found" (status.action_id ∷ [])),
      s,
    )
    | some spec ↦ elim (validate_action_status_scope status spec) [
      | some e ↦ (err e, s)
      | none ↦
          let prepared = normalize_action_status spec status in
          (ok prepared, write_status (status_key_of status key) prepared s)
    ]
  ]
]

unfoldable pub update_action_status :
    GovernedActionStatus → String → MemoryStore → Result GovernedActionStatus × MemoryStore
unfolding validate_update_action_status_input update_action_status_locked
update_action_status status key s = elim (validate_update_action_status_input status key) [
  | some e ↦ (err e, s)
  | none ↦ update_action_status_locked status key s
]

abbrev pub write_action : GovernedActionSpec → GovernedActionStatus → MemoryStore → MemoryStore
write_action spec status s = record s {
  specs = put spec.action_id spec s.specs;
  statuses = put spec.action_id status s.statuses;
  start_keys = put (action_start_key_from_spec spec) spec.action_id s.start_keys;
}

-- `json.Marshal` of a request is a parameter; the cause of its error is left out.
module _ (marshal : GovernedActionSpec → Result String) where
  same_action_json : GovernedActionSpec → Result String → Result String → Option Error
  same_action_json existing (err e) b =
      some (errorf err_invalid_governed_action "marshal existing action request: %w" [])
  same_action_json existing (ok a) (err e) =
      some (errorf err_invalid_governed_action "marshal requested action request: %w" [])
  same_action_json existing (ok a) (ok b) =
      if key_eq a b
      then none
      else some (
          errorf err_invalid_governed_action
            "action %q idempotency key was reused with a different request"
            (existing.action_id ∷ []))

  unfoldable pub validate_action_start_idempotency :
      GovernedActionSpec → GovernedActionSpec → Option Error
  unfolding same_action_json
  validate_action_start_idempotency existing requested =
      if not (key_eq existing.action_id requested.action_id)
      then some (
          errorf err_invalid_governed_action "action idempotency key belongs to action %q"
            (existing.action_id ∷ []))
      else same_action_json existing (marshal existing) (marshal requested)

  -- The status of the action that claimed the key, `none` when none did.
  unfoldable pub lookup_existing_action_start_locked :
      ActionStartKey → GovernedActionSpec → MemoryStore → Result (Option GovernedActionStatus)
  unfolding get get_or validate_action_start_idempotency
  lookup_existing_action_start_locked key spec s = elim (get key s.start_keys) [
    | none ↦ ok none
    | some id ↦
        check (validate_action_start_idempotency (get_or zero_spec id s.specs) spec)
          (ok (some (get_or zero_status id s.statuses)))
  ]

  unfoldable pub lookup_existing_action_id_locked :
      GovernedActionSpec → MemoryStore → Result (Option GovernedActionStatus)
  unfolding get get_or validate_action_start_idempotency
  lookup_existing_action_id_locked spec s = elim (get spec.action_id s.specs) [
    | none ↦ ok none
    | some existing ↦
        check (validate_action_start_idempotency existing spec)
          (ok (some (get_or zero_status spec.action_id s.statuses)))
  ]

  -- An action that is found is returned as it is; an error ends the call.
  abbrev or_found :
      Result (Option GovernedActionStatus)
      → MemoryStore
      → Result (GovernedActionStatus × Bool) × MemoryStore
      → Result (GovernedActionStatus × Bool) × MemoryStore
  or_found (err e) s rest = (err e, s)
  or_found (ok (some status)) s rest = (ok (status, false), s)
  or_found (ok none) s rest = rest

  unfoldable pub create_action_locked :
      GovernedActionSpec
      → GovernedActionStatus
      → MemoryStore
      → Result (GovernedActionStatus × Bool) × MemoryStore
  unfolding lookup_existing_action_start_locked lookup_existing_action_id_locked put
      normalize_action_status
  create_action_locked spec status s =
      or_found (lookup_existing_action_start_locked (action_start_key_from_spec spec) spec s) s (
        or_found (lookup_existing_action_id_locked spec s) s (
          let prepared = normalize_action_status spec status in
          (ok (prepared, true), write_action spec prepared s)))

  -- The status is not nil.
  unfoldable pub create_action :
      GovernedActionSpec
      → GovernedActionStatus
      → MemoryStore
      → Result (GovernedActionStatus × Bool) × MemoryStore
  unfolding validate_governed_action_spec create_action_locked
  create_action spec status s = elim (validate_governed_action_spec spec) [
    | some e ↦ (err e, s)
    | none ↦ create_action_locked spec status s
  ]
