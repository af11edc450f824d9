-- ===== src/Plan/Store/Memory.antt =====
-- The calls that create a plan, save its state and load it
-- (internal/usecase/agentosplan/plan_store_memory.go, `CreatePlan` to `LoadPlanState`).
use go_agent.Prelude.{
  ◌==◌, String, is_empty, Bool, true, false, key_eq, string_key, [], ◌∷◌, Option, none, some, Error,
  Result, ok, err, errorf, err_invalid_run_plan, err_plan_route_not_found, first_error, check,
  if◌then◌else◌,
}
use go_agent.Prelude.Dict.{get, get_or, put}
use go_agent.Control.{Time, RunPlanSpec, RunPlanStatus}
use go_agent.Plan.Commands.Status.{PlanRef, validate_plan_ref}
use go_agent.Plan.Validator.Validate.{validate_run_plan_scope}
use go_agent.Plan.Store.Records.{PlanStateSnapshot, PlanStartKey, start_key, event_key}
use go_agent.Plan.Store.Scope.{validate_plan_tenant_access}
use go_agent.Plan.Store.Codec.{Codec}
use go_agent.Plan.Store.Idempotency.{
  normalize_durable_timestamp, validate_plan_start_idempotency, validate_plan_state_identity,
}
use go_agent.Plan.Store.State.{
  MemoryPlanStore, Call, or_fail, ◌>>=◌, ◌>>◌, lift, zero_spec, zero_status, start_key_of,
}

unfoldable pub validate_memory_create_plan_input : RunPlanSpec → Option Error
validate_memory_create_plan_input spec =
    if is_empty spec.plan_id
    then some (errorf err_invalid_run_plan "plan id is required" [])
    else if is_empty spec.idempotency_key
    then some (errorf err_invalid_run_plan "plan idempotency key is required" [])
    else none

unfoldable pub normalized_status : Time → RunPlanSpec → RunPlanStatus → RunPlanStatus
normalized_status now spec status = record status {
  plan_id = if is_empty status.plan_id then spec.plan_id else status.plan_id;
  updated_at = if status.updated_at == 0 then now else status.updated_at;
}

-- The snapshot is not nil.
unfoldable pub normalize_memory_plan_state_snapshot :
    Time → PlanStateSnapshot → Result PlanStateSnapshot
unfolding validate_run_plan_scope normalize_durable_timestamp normalized_status
normalize_memory_plan_state_snapshot now snapshot = check (validate_run_plan_scope snapshot.spec) (
    if is_empty snapshot.spec.idempotency_key
    then err (errorf err_invalid_run_plan "plan idempotency key is required" [])
    else ok (record {
      spec = record snapshot.spec {
        requested_at = normalize_durable_timestamp snapshot.spec.requested_at;
      };
      status = normalized_status now snapshot.spec snapshot.status;
    }))

-- `CreatePlan` with a status that is not nil.
unfoldable pub prepare_memory_create_plan_snapshot :
    Time → RunPlanSpec → Option RunPlanStatus → Result PlanStateSnapshot
unfolding normalize_memory_plan_state_snapshot
prepare_memory_create_plan_snapshot now spec none =
    err (errorf err_invalid_run_plan "plan status is required" [])
prepare_memory_create_plan_snapshot now spec (some status) =
    normalize_memory_plan_state_snapshot now (record { spec = spec; status = status })

-- The key is free, or this plan's.
unfoldable pub may_claim : PlanStateSnapshot → MemoryPlanStore → Option Error
unfolding get
may_claim snapshot s = elim (get (start_key_of snapshot.spec) s.plan_keys) [
  | none ↦ none
  | some existing_id ↦
      if key_eq existing_id snapshot.spec.plan_id
      then none
      else some
          (errorf err_invalid_run_plan "plan idempotency key belongs to plan %q" (existing_id ∷ []))
]

unfoldable pub write_plan_state : PlanStateSnapshot → MemoryPlanStore → MemoryPlanStore
unfolding put
write_plan_state snapshot s = record s {
  specs = put snapshot.spec.plan_id snapshot.spec s.specs;
  statuses = put snapshot.spec.plan_id snapshot.status s.statuses;
  plan_keys = put (start_key_of snapshot.spec) snapshot.spec.plan_id s.plan_keys;
}

-- A plan that is found is returned as it is, and no plan is created.
abbrev pub or_existing :
    Result (Option RunPlanStatus) → Call (RunPlanStatus × Bool) → Call (RunPlanStatus × Bool)
or_existing (err e) m s = (err e, s)
or_existing (ok (some status)) m s = (ok (status, false), s)
or_existing (ok none) m s = m s

module _ (codec : Codec) where
  -- The status of the plan that claimed the key, `none` when no plan did.
  unfoldable pub lookup_existing_plan_locked :
      PlanStartKey → RunPlanSpec → MemoryPlanStore → Result (Option RunPlanStatus)
  unfolding get get_or validate_plan_start_idempotency
  lookup_existing_plan_locked key spec s = elim (get key s.plan_keys) [
    | none ↦ ok none
    | some existing_id ↦
        check (validate_plan_start_idempotency codec (get_or zero_spec existing_id s.specs) spec)
          (ok (some (get_or zero_status existing_id s.statuses)))
  ]

  unfoldable pub lookup_existing_plan_id_locked :
      RunPlanSpec → MemoryPlanStore → Result (Option RunPlanStatus)
  unfolding get get_or validate_plan_start_idempotency
  lookup_existing_plan_id_locked spec s = elim (get spec.plan_id s.specs) [
    | none ↦ ok none
    | some existing ↦
        check (validate_plan_start_idempotency codec existing spec)
          (ok (some (get_or zero_status spec.plan_id s.statuses)))
  ]

  -- The specification may be written over the one that is stored.
  unfoldable pub may_save : PlanStateSnapshot → Bool → MemoryPlanStore → Option Error
  unfolding get validate_plan_state_identity
  may_save snapshot allow_create s = elim (get snapshot.spec.plan_id s.specs) [
    | some existing ↦ validate_plan_state_identity codec existing snapshot.spec
    | none ↦
        if allow_create
        then none
        else some (errorf err_plan_route_not_found "%s" (snapshot.spec.plan_id ∷ []))
  ]

  unfoldable pub save_plan_state_locked : PlanStateSnapshot → Bool → Call Unit
  unfolding may_save may_claim write_plan_state
  save_plan_state_locked snapshot allow_create s =
      elim (first_error (may_save snapshot allow_create s) (may_claim snapshot s)) [
        | some e ↦ (err e, s)
        | none ↦ (ok tt, write_plan_state snapshot s)
      ]

  unfoldable pub save_plan_state : Time → PlanStateSnapshot → Call Unit
  unfolding normalize_memory_plan_state_snapshot save_plan_state_locked
  save_plan_state now snapshot =
      lift (normalize_memory_plan_state_snapshot now snapshot) >>= λ normalized.
      save_plan_state_locked normalized false

  unfoldable pub create_plan_snapshot :
      PlanStartKey → RunPlanSpec → PlanStateSnapshot → Call (RunPlanStatus × Bool)
  unfolding lookup_existing_plan_locked lookup_existing_plan_id_locked save_plan_state_locked
  create_plan_snapshot key spec snapshot s =
      or_existing (lookup_existing_plan_locked key spec s)
        (or_existing (lookup_existing_plan_id_locked spec s)
          (do save_plan_state_locked snapshot true; lift (ok (snapshot.status, true))))
        s

  -- The two lookups before the lock is taken for the write; each call is one step.
  unfoldable pub create_plan :
      Time → RunPlanSpec → Option RunPlanStatus → Call (RunPlanStatus × Bool)
  unfolding validate_memory_create_plan_input lookup_existing_plan_locked
      lookup_existing_plan_id_locked prepare_memory_create_plan_snapshot create_plan_snapshot
  create_plan now spec status s =
      or_fail (validate_memory_create_plan_input spec)
        (or_existing (lookup_existing_plan_locked (start_key_of spec) spec s) (
          or_existing (lookup_existing_plan_id_locked spec s) (
            lift (prepare_memory_create_plan_snapshot now spec status)
            >>= create_plan_snapshot (start_key_of spec) spec)))
        s

unfoldable pub get_plan : String → MemoryPlanStore → Option (RunPlanSpec × RunPlanStatus)
unfolding get get_or
get_plan plan_id s = elim (get plan_id s.specs) [
  | none ↦ none
  | some spec ↦ some (spec, get_or zero_status plan_id s.statuses)
]

unfoldable pub get_plan_by_ref :
    PlanRef → MemoryPlanStore → Result (Option (RunPlanSpec × RunPlanStatus))
unfolding validate_plan_ref validate_plan_tenant_access get get_or
get_plan_by_ref ref s = check (validate_plan_ref ref) (elim (get ref.plan_id s.specs) [
  | none ↦ ok none
  | some spec ↦
      check (validate_plan_tenant_access ref spec)
        (ok (some (spec, get_or zero_status ref.plan_id s.statuses)))
])

abbrev pub with_status : Option RunPlanSpec → RunPlanStatus → Option PlanStateSnapshot
with_status none status = none
with_status (some spec) status = some (record { spec = spec; status = status })

unfoldable pub load_plan_state : String → MemoryPlanStore → Option PlanStateSnapshot
unfolding get get_or
load_plan_state plan_id s =
    with_status (get plan_id s.specs) (get_or zero_status plan_id s.statuses)
