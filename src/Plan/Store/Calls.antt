-- ===== src/Plan/Store/Calls.antt =====
-- Every call of the store is a sequence of guarded writes, whether it fails or not.
use go_agent.Prelude.{
  String, Bool, true, false, Option, none, some, ok, first_error, string_key, key_iff, ok_injective,
  check_ok, Option-cases, first_error-none, ◌≡◌, sym, ◌∙◌, ap, inl, inr, arith,
}
use go_agent.Prelude.Dict.{get}
use go_agent.Control.{Time, RunPlanSpec, RunPlanStatus}
use go_agent.Plan.Validator.Validate.{validate_run_plan_scope}
use go_agent.Plan.Store.Records.{PlanEvent, PlanStateSnapshot, PlanStartKey, event_key}
use go_agent.Plan.Store.Codec.{Codec}
use go_agent.Plan.Store.Scope.{scope_plan_event_to_spec}
use go_agent.Plan.Store.Memory.{
  or_existing, normalize_memory_plan_state_snapshot, may_save, may_claim, save_plan_state_locked,
  save_plan_state, create_plan_snapshot, create_plan, lookup_existing_plan_locked,
  lookup_existing_plan_id_locked, prepare_memory_create_plan_snapshot,
  validate_memory_create_plan_input,
}
use go_agent.Plan.Store.State.{MemoryPlanStore, Call, lift, ◌>>=◌, start_key_of}
use go_agent.Plan.Store.Events.{
  event_key_of, append_scoped, append_as, append_found, append_plan_event_locked, append_plan_event,
  validate_append_input,
}
use go_agent.Plan.Store.Idempotency.{normalize_plan_event_append_request}
use go_agent.Plan.Store.Writes.{Write, after-or_fail, after-lift, after-bind, after-or_existing}

-- An event that gets the scope of a plan is the plan's.
pub scope_plan_event_to_spec_ok :
    (event : PlanEvent) (spec : RunPlanSpec) {scoped : PlanEvent}
    → scope_plan_event_to_spec event spec ≡ ok scoped
    → (validate_run_plan_scope spec ≡ none)
      × (event.plan_id ≡ spec.plan_id)
      × (scoped ≡ record event { account_id = spec.account_id; project_id = spec.project_id })
unfolding scope_plan_event_to_spec
scope_plan_event_to_spec_ok event spec {scoped = scoped} h =
    let inner = check_ok (validate_run_plan_scope spec) _ h in
    (
      inner.0,
      ground (arith, key_iff event.plan_id spec.plan_id),
      sym (
          ok_injective (record event { account_id = spec.account_id; project_id = spec.project_id })
            scoped (ground arith)),
    )

module _ (codec : Codec) where
  pub save_plan_state_locked-Write :
      (snapshot : PlanStateSnapshot) (allow_create : Bool) (s : MemoryPlanStore)
      → validate_run_plan_scope snapshot.spec ≡ none
      → Write codec s (save_plan_state_locked codec snapshot allow_create s).1
  unfolding save_plan_state_locked
  save_plan_state_locked-Write snapshot allow_create s valid =
      elim (Option-cases
        (first_error (may_save codec snapshot allow_create s) (may_claim snapshot s))) [
          | inl passed ↦
              let both =
                first_error-none (may_save codec snapshot allow_create s) (may_claim snapshot s)
                  passed in
              rw (passed, save_plan_state_locked)
                (Write.save snapshot allow_create s valid both.0 both.1)
          | inr (e, failed) ↦ rw (failed, save_plan_state_locked) (Write.stay s)
        ]

  append_scoped-Write :
      (now : Time) (scoped : PlanEvent) (key : String) (spec : RunPlanSpec) (s : MemoryPlanStore)
      → get scoped.plan_id s.specs ≡ some spec
      → scoped.account_id ≡ spec.account_id
      → scoped.project_id ≡ spec.project_id
      → Write codec s (append_scoped codec now scoped (event_key_of scoped.plan_id key) s).1
  unfolding append_scoped
  append_scoped-Write now scoped key spec s found account project =
      elim (Option-cases (get (event_key_of scoped.plan_id key) s.event_keys)) [
        | inl free ↦
            rw (free, append_scoped) (Write.append now scoped key spec s found account project free)
        | inr (existing, claimed) ↦ rw (claimed, append_scoped) (Write.stay s)
      ]

  append_found-Write :
      (now : Time) (event : PlanEvent) (key : String) (spec : RunPlanSpec) (s : MemoryPlanStore)
      → get event.plan_id s.specs ≡ some spec
      → Write codec s (append_found codec now event key spec s).1
  unfolding append_found append_as
  append_found-Write now event key spec s found =
      after-lift (Write codec s) (scope_plan_event_to_spec event spec) (append_as codec now key) s
        (Write.stay s)
        (λ scoped e.
          let facts = scope_plan_event_to_spec_ok event spec e in
          append_scoped-Write now scoped key spec s
            (ap (λ (x : PlanEvent). get x.plan_id s.specs) facts.2 ∙ found)
            (ap (λ (x : PlanEvent). x.account_id) facts.2)
            (ap (λ (x : PlanEvent). x.project_id) facts.2))

  pub append_plan_event_locked-Write :
      (now : Time) (event : PlanEvent) (key : String) (s : MemoryPlanStore)
      → Write codec s (append_plan_event_locked codec now event key s).1
  unfolding append_plan_event_locked
  append_plan_event_locked-Write now event key s = elim (Option-cases (get event.plan_id s.specs)) [
    | inl missing ↦ rw (missing, append_plan_event_locked) (Write.stay s)
    | inr (spec, found) ↦
        rw (found, append_plan_event_locked) (append_found-Write now event key spec s found)
  ]

  pub append_plan_event-Write :
      (now : Time) (event : PlanEvent) (key : String) (s : MemoryPlanStore)
      → Write codec s (append_plan_event codec now event key s).1
  unfolding append_plan_event
  append_plan_event-Write now event key s =
      let requested = normalize_plan_event_append_request event in
      after-or_fail (Write codec s) (validate_append_input event key)
        (append_plan_event_locked codec now requested key) s (Write.stay s)
        (λ passed. append_plan_event_locked-Write now requested key s)

  pub normalize-scope :
      (now : Time) (snapshot : PlanStateSnapshot) {normalized : PlanStateSnapshot}
      → normalize_memory_plan_state_snapshot now snapshot ≡ ok normalized
      → validate_run_plan_scope normalized.spec ≡ none
  unfolding normalize_memory_plan_state_snapshot validate_run_plan_scope
  normalize-scope now snapshot {normalized = normalized} h = ground arith

  prepare-scope :
      (now : Time) (spec : RunPlanSpec) (status : Option RunPlanStatus)
      {snapshot : PlanStateSnapshot}
      → prepare_memory_create_plan_snapshot now spec status ≡ ok snapshot
      → validate_run_plan_scope snapshot.spec ≡ none
  unfolding prepare_memory_create_plan_snapshot
  prepare-scope now spec none e = cc
  prepare-scope now spec (some status) e =
      normalize-scope now (record { spec = spec; status = status }) e

  pub save_plan_state-Write :
      (now : Time) (snapshot : PlanStateSnapshot) (s : MemoryPlanStore)
      → Write codec s (save_plan_state codec now snapshot s).1
  unfolding save_plan_state
  save_plan_state-Write now snapshot s =
      after-lift (Write codec s) (normalize_memory_plan_state_snapshot now snapshot)
        (λ normalized. save_plan_state_locked codec normalized false) s (Write.stay s)
        (λ normalized e.
          save_plan_state_locked-Write normalized false s (normalize-scope now snapshot e))

  create_plan_snapshot-Write :
      (key : PlanStartKey) (spec : RunPlanSpec) (snapshot : PlanStateSnapshot) (s : MemoryPlanStore)
      → validate_run_plan_scope snapshot.spec ≡ none
      → Write codec s (create_plan_snapshot codec key spec snapshot s).1
  unfolding create_plan_snapshot
  create_plan_snapshot-Write key spec snapshot s valid =
      let save = save_plan_state_locked codec snapshot true in
      let finish : Call (RunPlanStatus × Bool) =
        save >>= λ done. lift (ok (snapshot.status, true)) in
      after-or_existing (Write codec s) (lookup_existing_plan_locked codec key spec s)
        (or_existing (lookup_existing_plan_id_locked codec spec s) finish) s (Write.stay s)
        (λ first.
          after-or_existing (Write codec s) (lookup_existing_plan_id_locked codec spec s) finish s
            (Write.stay s)
            (λ second.
              after-bind (Write codec s) save (λ done. lift (ok (snapshot.status, true))) s
                (save_plan_state_locked-Write snapshot true s valid) (λ done t h. h)))

  pub create_plan-Write :
      (now : Time) (spec : RunPlanSpec) (status : Option RunPlanStatus) (s : MemoryPlanStore)
      → Write codec s (create_plan codec now spec status s).1
  unfolding create_plan
  create_plan-Write now spec status s =
      let prepared = prepare_memory_create_plan_snapshot now spec status in
      let store : Call (RunPlanStatus × Bool) =
        lift prepared >>= create_plan_snapshot codec (start_key_of spec) spec in
      let by_id = or_existing (lookup_existing_plan_id_locked codec spec s) store in
      after-or_fail (Write codec s) (validate_memory_create_plan_input spec)
        (or_existing (lookup_existing_plan_locked codec (start_key_of spec) spec s) by_id) s
        (Write.stay s)
        (λ passed.
          after-or_existing (Write codec s)
            (lookup_existing_plan_locked codec (start_key_of spec) spec s) by_id s (Write.stay s)
            (λ first.
              after-or_existing (Write codec s) (lookup_existing_plan_id_locked codec spec s) store
                s (Write.stay s)
                (λ second.
                  after-lift (Write codec s) prepared
                    (create_plan_snapshot codec (start_key_of spec) spec) s (Write.stay s)
                    (λ snapshot e.
                      create_plan_snapshot-Write (start_key_of spec) spec snapshot s
                        (prepare-scope now spec status e)))))
