-- ===== src/Plan/Store/Creation.antt =====
-- A plan that is created twice is created once.
use go_agent.Prelude.{
  is_empty, Bool, true, false, Option, none, some, Error, Result, ok, err, check, key_refl,
  string_key, check_ok, ok_injective, ◌≡◌, refl, sym, ◌∙◌, ap, inl, inr, Bool-cases,
}
use go_agent.Prelude.Dict.{get-put_self, get_or-put}
use go_agent.Control.{Time, RunPlanSpec, RunPlanStatus}
use go_agent.Plan.Validator.Validate.{validate_run_plan_scope}
use go_agent.Plan.Store.Records.{PlanStateSnapshot, PlanStartKey, start_key}
use go_agent.Plan.Store.Codec.{Codec}
use go_agent.Plan.Store.Idempotency.{
  normalize_durable_timestamp, same_request, validate_plan_start_idempotency,
}
use go_agent.Plan.Store.Memory.{
  or_existing, normalize_memory_plan_state_snapshot, write_plan_state, save_plan_state_locked,
  lookup_existing_plan_locked, lookup_existing_plan_id_locked, create_plan_snapshot, create_plan,
  validate_memory_create_plan_input, prepare_memory_create_plan_snapshot,
}
use go_agent.Plan.Store.State.{
  MemoryPlanStore, Call, lift, ◌>>=◌, zero_spec, zero_status, start_key_of,
}
use go_agent.Plan.Store.Writes.{lift_ok, failed_ok, or_fail_ok, chain_ok}
use go_agent.Plan.Store.RoundTrip.{save_locked_ok}

created : Result (RunPlanStatus × Bool) → Bool
created (ok (status, b)) = b
created (err e) = false

-- A call that creates a plan has found none.
or_existing_ok :
    (r : Result (Option RunPlanStatus)) (m : Call (RunPlanStatus × Bool)) (s : MemoryPlanStore)
    {status : RunPlanStatus} {t : MemoryPlanStore}
    → or_existing r m s ≡ (ok (status, true), t)
    → m s ≡ (ok (status, true), t)
unfolding created
or_existing_ok (ok none) m s h = h
or_existing_ok (ok (some found)) m s h =
    let no : false ≡ true =
      ap (λ (x : Result (RunPlanStatus × Bool) × MemoryPlanStore). created x.0) h in
    cc
or_existing_ok (err e) m s h = absurd (failed_ok h)

or_existing-check :
    (e : Option Error) (status : RunPlanStatus) (m : Call (RunPlanStatus × Bool))
    (s : MemoryPlanStore)
    → or_existing (check e (ok (some status))) m s ≡ (check e (ok (status, false)), s)
or_existing-check none status m s = refl
or_existing-check (some e) status m s = refl

module _ (codec : Codec) where
  prepared-spec :
      (now : Time) (spec : RunPlanSpec) (given : Option RunPlanStatus)
      {snapshot : PlanStateSnapshot}
      → prepare_memory_create_plan_snapshot now spec given ≡ ok snapshot
      → snapshot.spec ≡ record spec { requested_at = normalize_durable_timestamp spec.requested_at }
  unfolding prepare_memory_create_plan_snapshot normalize_memory_plan_state_snapshot
  prepared-spec now spec none h = cc
  prepared-spec now spec (some status) {snapshot = snapshot} h =
      let valid = check_ok (validate_run_plan_scope spec) _ h in
      elim (Bool-cases (is_empty spec.idempotency_key)) [
        | inl missing ↦ cc (rw missing at valid.1)
        | inr given ↦
            sym (
              ap (λ (x : PlanStateSnapshot). x.spec)
                (ok_injective _ snapshot (rw given at valid.1)))
      ]

  create_snapshot_ok :
      (key : PlanStartKey) (spec : RunPlanSpec) (snapshot : PlanStateSnapshot) (s : MemoryPlanStore)
      {status : RunPlanStatus} {t : MemoryPlanStore}
      → create_plan_snapshot codec key spec snapshot s ≡ (ok (status, true), t)
      → (t ≡ write_plan_state snapshot s) × (snapshot.status ≡ status)
  unfolding create_plan_snapshot
  create_snapshot_ok key spec snapshot s {status = status} {t = t} h =
      let save = save_plan_state_locked codec snapshot true in
      let finish : Call (RunPlanStatus × Bool) =
        save >>= λ done. lift (ok (snapshot.status, true)) in
      let second =
        or_existing_ok (lookup_existing_plan_locked codec key spec s)
          (or_existing (lookup_existing_plan_id_locked codec spec s) finish) s h in
      let last = or_existing_ok (lookup_existing_plan_id_locked codec spec s) finish s second in
      let (done, u, saved, returned) =
        chain_ok save (λ done. lift (ok (snapshot.status, true))) s last in
      (
        sym (ap (λ r. r.1) returned) ∙ save_locked_ok codec snapshot true s saved,
        ap (λ (p : RunPlanStatus × Bool). p.0)
            (ok_injective (snapshot.status, true) (status, true) (ap (λ r. r.0) returned)),
      )

  -- The snapshot that a plan is created with: its specification, with the time it was requested at
  -- rounded.
  create_ok :
      (now : Time) (spec : RunPlanSpec) (given : Option RunPlanStatus) (s : MemoryPlanStore)
      {status : RunPlanStatus} {t : MemoryPlanStore}
      → create_plan codec now spec given s ≡ (ok (status, true), t)
      → (validate_memory_create_plan_input spec ≡ none)
        × (t
            ≡ write_plan_state
                (record {
                  spec = record spec {
                    requested_at = normalize_durable_timestamp spec.requested_at;
                  };
                  status = status;
                })
                s)
  unfolding create_plan
  create_ok now spec given s {status = status} {t = t} h =
      let prepared = prepare_memory_create_plan_snapshot now spec given in
      let key = start_key_of spec in
      let store : Call (RunPlanStatus × Bool) =
        lift prepared >>= create_plan_snapshot codec key spec in
      let by_id = or_existing (lookup_existing_plan_id_locked codec spec s) store in
      let by_key = or_existing (lookup_existing_plan_locked codec key spec s) by_id in
      let (valid, first) = or_fail_ok (validate_memory_create_plan_input spec) by_key s h in
      let second = or_existing_ok (lookup_existing_plan_locked codec key spec s) by_id s first in
      let third = or_existing_ok (lookup_existing_plan_id_locked codec spec s) store s second in
      let (snapshot, made, last) = lift_ok prepared (create_plan_snapshot codec key spec) s third in
      let (left, same) = create_snapshot_ok key spec snapshot s last in
      (
        valid,
        left
            ∙ ap (λ x. write_plan_state (record { spec = x; status = snapshot.status }) s)
                (prepared-spec now spec given made)
            ∙ ap
                (λ x.
                  write_plan_state
                    (record {
                      spec = record spec {
                        requested_at = normalize_durable_timestamp spec.requested_at;
                      };
                      status = x;
                    })
                    s)
                same,
      )

  start_same :
      (spec : RunPlanSpec) (at : Time)
      → validate_plan_start_idempotency codec (record spec { requested_at = at }) spec
        ≡ same_request codec (record spec { requested_at = at }) spec
  unfolding validate_plan_start_idempotency
  start_same spec at =
      rw (validate_plan_start_idempotency, key_refl spec.plan_id, key_refl spec.idempotency_key)
        refl

  lookup-write :
      (spec : RunPlanSpec) (at : Time) (status : RunPlanStatus) (s : MemoryPlanStore)
      → lookup_existing_plan_locked codec (start_key_of spec) spec (
          write_plan_state (record { spec = record spec { requested_at = at }; status = status }) s)
        ≡ check (same_request codec (record spec { requested_at = at }) spec) (ok (some status))
  unfolding lookup_existing_plan_locked write_plan_state validate_plan_start_idempotency
  lookup-write spec at status s =
      let stored = record spec { requested_at = at } in
      rw
        (
          lookup_existing_plan_locked,
          get-put_self (start_key_of spec) spec.plan_id s.plan_keys,
          get_or-put zero_spec spec.plan_id spec.plan_id stored s.specs,
          get_or-put zero_status spec.plan_id spec.plan_id status s.statuses,
          key_refl spec.plan_id,
          start_same spec at,
        )
        refl

  -- A plan that was created is not created again: the repeated request gives the stored status where
  -- the JSON document of the stored plan is that of the request, is refused where it is another, and
  -- changes nothing. The stored plan is the request with its time of request rounded to microseconds.
  pub create_plan-create_plan :
      (now later : Time) (spec : RunPlanSpec) (given other : Option RunPlanStatus)
      (s : MemoryPlanStore) {status : RunPlanStatus} {t : MemoryPlanStore}
      → create_plan codec now spec given s ≡ (ok (status, true), t)
      → create_plan codec later spec other t ≡ (
        check
            (same_request codec
              (record spec { requested_at = normalize_durable_timestamp spec.requested_at })
              spec)
            (ok (status, false)),
        t,
      )
  unfolding create_plan
  create_plan-create_plan now later spec given other s {status = status} {t = t} h =
      let (valid, left) = create_ok now spec given s h in
      let at = normalize_durable_timestamp spec.requested_at in
      let key = start_key_of spec in
      let again =
        ap (lookup_existing_plan_locked codec key spec) left ∙ lookup-write spec at status s in
      rw (create_plan, valid, again)
        (or_existing-check (same_request codec (record spec { requested_at = at }) spec) status _ t)
