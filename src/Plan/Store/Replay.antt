-- ===== src/Plan/Store/Replay.antt =====
-- An append that is repeated gives the event that the first one stored.
use go_agent.Prelude.{
  ◌==◌, pos, String, is_empty, true, List, none, some, ok, string_key, check_ok, ok_injective,
  subst, ◌≡◌, ◌⊎◌, refl, sym, ◌∙◌, ap, inl, inr, arith, Bool-cases, Option-cases,
}
use go_agent.Prelude.Dict.{get, get-put_self}
use go_agent.Control.{Time, RunPlanSpec}
use go_agent.Plan.Validator.Validate.{validate_run_plan_scope}
use go_agent.Plan.Store.Records.{PlanEvent, PlanEventIdempotencyKey, event_key}
use go_agent.Plan.Store.Codec.{Codec, plan_event_idempotency_identity}
use go_agent.Plan.Store.Scope.{scope_plan_event_to_spec}
use go_agent.Plan.Store.Idempotency.{
  normalize_durable_timestamp, normalize_plan_event_append_request, same_json_refl,
}
use go_agent.Plan.Store.Envelopes.{same_time, same_event, validate_plan_event_idempotency}
use go_agent.Plan.Store.State.{MemoryPlanStore}
use go_agent.Plan.Store.Events.{
  log_of, event_key_of, stored_event, write_plan_event, append_scoped, append_plan_event_locked,
  append_plan_event, append_as, append_found, validate_append_input,
}
use go_agent.Plan.Store.Writes.{failed_ok, lift_ok, or_fail_ok}
use go_agent.Plan.Store.Run.{Op, run, run-Write}
use go_agent.Plan.Store.Calls.{scope_plan_event_to_spec_ok}
use go_agent.Plan.Store.AppendOnly.{run-Keeps}
use go_agent.Plan.Store.Identity.{TellsTenants, SameIdentity, Remains-some, Write-Remains}

-- Rounding a time that is rounded changes nothing.
pub normalize_durable_timestamp_idem :
    (t : Time)
    → normalize_durable_timestamp (normalize_durable_timestamp t) ≡ normalize_durable_timestamp t
unfolding normalize_durable_timestamp
normalize_durable_timestamp_idem t = ground arith

module _ (codec : Codec) where
  event_agrees :
      (existing requested : PlanEvent)
      → requested.event_id ≡ ""
      → requested.sequence ≡ pos 0
      → (requested.timestamp ≡ 0) ⊎ (existing.timestamp ≡ requested.timestamp)
      → same_event codec existing requested ≡ none
      → validate_plan_event_idempotency codec existing requested ≡ none
  unfolding validate_plan_event_idempotency same_time
  event_agrees existing requested id sequence (inl unset) same =
      rw (id, sequence, unset, same, validate_plan_event_idempotency) refl
  event_agrees existing requested id sequence (inr at) same =
      let unnamed : is_empty requested.event_id ≡ true = ap is_empty id in
      ground (arith, unnamed, sequence, at, same)

  -- A new event agrees with the request that it was made of.
  stored_event-agrees :
      (now : Time) (scoped : PlanEvent) (log : List PlanEvent) {json : String}
      → scoped.event_id ≡ ""
      → scoped.sequence ≡ pos 0
      → normalize_durable_timestamp scoped.timestamp ≡ scoped.timestamp
      → codec.marshal_event_identity (plan_event_idempotency_identity scoped) ≡ ok json
      → validate_plan_event_idempotency codec (stored_event now scoped log) scoped ≡ none
  unfolding stored_event same_event
  stored_event-agrees now scoped log id sequence rounded written =
      event_agrees (stored_event now scoped log) scoped id sequence
        (elim (Bool-cases (scoped.timestamp == 0)) [
          | inl unset ↦ inl (ground (arith, unset))
          | inr given ↦ inr (rw (given, stored_event) rounded)
        ])
        (same_json_refl _ _ _
          (codec.marshal_event_identity (plan_event_idempotency_identity scoped)) written)

  -- What a successful append leaves under its key.
  append_scoped_ok :
      (now : Time) (scoped : PlanEvent) (key : PlanEventIdempotencyKey) (s : MemoryPlanStore)
      {stored : PlanEvent} {t : MemoryPlanStore} {json : String}
      → scoped.event_id ≡ ""
      → scoped.sequence ≡ pos 0
      → normalize_durable_timestamp scoped.timestamp ≡ scoped.timestamp
      → codec.marshal_event_identity (plan_event_idempotency_identity stored) ≡ ok json
      → append_scoped codec now scoped key s ≡ (ok stored, t)
      → (get key t.event_keys ≡ some stored)
        × (validate_plan_event_idempotency codec stored scoped ≡ none)
        × (t.specs ≡ s.specs)
  unfolding append_scoped write_plan_event stored_event
  append_scoped_ok now scoped key s {stored = stored} {t = t} id sequence rounded written h =
      elim (Option-cases (get key s.event_keys)) [
        | inr (existing, claimed) ↦
            let kept = rw (claimed, append_scoped) at h in
            let checked =
              check_ok (validate_plan_event_idempotency codec existing scoped) (ok existing)
                (ap (λ r. r.0) kept) in
            let same = ok_injective existing stored checked.1 in
            let left : s ≡ t = ap (λ r. r.1) kept in
            (
              ap (λ (x : MemoryPlanStore). get key x.event_keys) (sym left)
                  ∙ claimed
                  ∙ ap some same,
              subst (λ x. validate_plan_event_idempotency codec x scoped ≡ none) same checked.0,
              ap (λ (x : MemoryPlanStore). x.specs) (sym left),
            )
        | inl free ↦
            let new = stored_event now scoped (log_of scoped.plan_id s) in
            let made = rw (free, append_scoped) at h in
            let same = ok_injective new stored (ap (λ r. r.0) made) in
            let left : write_plan_event key new s ≡ t = ap (λ r. r.1) made in
            (
              ap (λ (x : MemoryPlanStore). get key x.event_keys) (sym left)
                  ∙ get-put_self key new s.event_keys
                  ∙ ap some same,
              subst (λ x. validate_plan_event_idempotency codec x scoped ≡ none) same
                  (stored_event-agrees now scoped (log_of scoped.plan_id s) id sequence rounded (
                    ap (λ x. codec.marshal_event_identity (plan_event_idempotency_identity x)) same
                    ∙ written)),
              ap (λ (x : MemoryPlanStore). x.specs) (sym left),
            )
      ]

  -- A claimed key whose event agrees with the request gives that event.
  append_scoped-claimed :
      (now : Time) (scoped : PlanEvent) (key : PlanEventIdempotencyKey) (s : MemoryPlanStore)
      (stored : PlanEvent)
      → get key s.event_keys ≡ some stored
      → validate_plan_event_idempotency codec stored scoped ≡ none
      → append_scoped codec now scoped key s ≡ (ok stored, s)
  unfolding append_scoped
  append_scoped-claimed now scoped key s stored claimed agrees =
      rw (claimed, agrees, append_scoped) refl

-- The scope that an event gets depends on the identity of the plan alone.
scope-SameIdentity :
    (event : PlanEvent) (a b : RunPlanSpec)
    → SameIdentity a b
    → scope_plan_event_to_spec event b ≡ scope_plan_event_to_spec event a
unfolding scope_plan_event_to_spec validate_run_plan_scope
scope-SameIdentity event a b h = rw (sym h.0, sym h.2, sym h.3, scope_plan_event_to_spec) refl

module _ (codec : Codec) (tells : TellsTenants codec) where
  -- What an append that returns an event has gone through.
  append_locked_ok :
      (now : Time) (event : PlanEvent) (key : String) (s : MemoryPlanStore) {stored : PlanEvent}
      {t : MemoryPlanStore}
      → append_plan_event_locked codec now event key s ≡ (ok stored, t)
      → (spec : RunPlanSpec) × (get event.plan_id s.specs ≡ some spec)
        × (append_found codec now event key spec s ≡ (ok stored, t))
  unfolding append_plan_event_locked
  append_locked_ok now event key s h = elim (Option-cases (get event.plan_id s.specs)) [
    | inl missing ↦ absurd (failed_ok (rw (missing, append_plan_event_locked) at h))
    | inr (spec, found) ↦ (spec, found, rw (found, append_plan_event_locked) at h)
  ]

  -- The plan is found again, under the same identity.
  append_found-replay :
      (later : Time) (event scoped stored : PlanEvent) (key : String) (a b : RunPlanSpec)
      (u : MemoryPlanStore)
      → scope_plan_event_to_spec event a ≡ ok scoped
      → SameIdentity a b
      → get (event_key_of scoped.plan_id key) u.event_keys ≡ some stored
      → validate_plan_event_idempotency codec stored scoped ≡ none
      → append_found codec later event key b u ≡ (ok stored, u)
  unfolding append_found append_as
  append_found-replay later event scoped stored key a b u passed same claimed agrees =
      rw (append_found, scope-SameIdentity event a b same, passed)
        (append_scoped-claimed codec later scoped (event_key_of scoped.plan_id key) u stored claimed
          agrees)

  append_locked-replay :
      (now later : Time) (event : PlanEvent) (key : String) (s : MemoryPlanStore)
      {stored : PlanEvent} {t : MemoryPlanStore} {json : String} (ops : List Op)
      → event.event_id ≡ ""
      → event.sequence ≡ pos 0
      → normalize_durable_timestamp event.timestamp ≡ event.timestamp
      → append_plan_event_locked codec now event key s ≡ (ok stored, t)
      → codec.marshal_event_identity (plan_event_idempotency_identity stored) ≡ ok json
      → append_plan_event_locked codec later event key (run codec ops t)
        ≡ (ok stored, run codec ops t)
  unfolding append_plan_event_locked append_found append_as
  append_locked-replay now later event key s {stored = stored} {t = t} ops id sequence rounded h
        written =
      let (a, found, inner) = append_locked_ok now event key s h in
      let (scoped, passed, last) =
        lift_ok (scope_plan_event_to_spec event a) (append_as codec now key) s inner in
      let facts = scope_plan_event_to_spec_ok event a passed in
      let whole = facts.2 in
      let kept =
        append_scoped_ok codec now scoped (event_key_of scoped.plan_id key) s
          (ap (λ (x : PlanEvent). x.event_id) whole ∙ id)
          (ap (λ (x : PlanEvent). x.sequence) whole ∙ sequence)
          (ap (λ (x : PlanEvent). normalize_durable_timestamp x.timestamp) whole
            ∙ rounded
            ∙ ap (λ (x : PlanEvent). x.timestamp) (sym whole))
          written last in
      let (b, later_found, same) =
        Remains-some codec tells a (get event.plan_id (run codec ops t).specs) (
          Write-Remains codec tells event.plan_id a (run-Write codec ops t)
            (ap (λ d. get event.plan_id d) kept.2 ∙ found)) in
      let claimed = (run-Keeps codec ops t).1 (event_key_of scoped.plan_id key) stored kept.0 in
      rw (append_plan_event_locked, later_found)
        (append_found-replay later event scoped stored key a b (run codec ops t) passed same claimed
          kept.1)

  -- An append that returned an event returns it again, whatever calls came between, and changes
  -- nothing, where the durable fields of the event have a JSON document.
  pub append_plan_event-replay :
      (now later : Time) (event : PlanEvent) (key : String) (s : MemoryPlanStore)
      {stored : PlanEvent} {t : MemoryPlanStore} {json : String} (ops : List Op)
      → append_plan_event codec now event key s ≡ (ok stored, t)
      → codec.marshal_event_identity (plan_event_idempotency_identity stored) ≡ ok json
      → append_plan_event codec later event key (run codec ops t) ≡ (ok stored, run codec ops t)
  unfolding append_plan_event normalize_plan_event_append_request
  append_plan_event-replay now later event key s ops h written =
      let request = normalize_plan_event_append_request event in
      let inner =
        or_fail_ok (validate_append_input event key)
          (append_plan_event_locked codec now request key) s h in
      rw (append_plan_event, inner.0)
        (append_locked-replay now later request key s ops refl refl
          (normalize_durable_timestamp_idem event.timestamp) inner.1 written)
