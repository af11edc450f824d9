-- ===== src/Plan/Store/Events.antt =====
-- The event log of a plan, and the transitions that save a state with its event
-- (internal/usecase/agentosplan/plan_store_memory.go, `PersistPlanTransition`, `AppendPlanEvent`,
-- `ListPlanEvents`). The event and the scope are not nil.
use go_agent.Prelude.{
  ℤ, suc, pos, ltb_ℤ, leb_ℤ, ◌==◌, String, is_empty, Bool, false, not, ◌&&◌, ◌||◌, key_eq,
  string_key, List, [], ◌∷◌, ◌++◌, Option, none, some, Error, Result, ok, err, errorf,
  err_invalid_plan_event, err_plan_route_not_found, first_error, check, if◌then◌else◌, length,
}
use go_agent.Prelude.Dict.{get, get_or, put}
use go_agent.Prelude.Sort.{sort_by}
use go_agent.Prelude.Decimal.{decimal, ◌+++◌}
use go_agent.Control.{Time, RunPlanSpec}
use go_agent.Plan.Store.Records.{
  PlanEvent, PlanStateSnapshot, PlanStreamScope, PlanEventIdempotencyKey, event_key,
}
use go_agent.Plan.Store.Scope.{
  stream_ref, validate_plan_stream_scope, validate_plan_tenant_access, scope_plan_event_to_spec,
}
use go_agent.Plan.Store.Codec.{Codec, new_plan_transition_snapshot_identity}
use go_agent.Plan.Store.Idempotency.{
  normalize_durable_timestamp, normalize_plan_event_append_request,
  validate_plan_transition_idempotency,
}
use go_agent.Plan.Store.Envelopes.{validate_plan_event_idempotency}
use go_agent.Plan.Store.Memory.{normalize_memory_plan_state_snapshot, save_plan_state_locked}
use go_agent.Plan.Store.State.{MemoryPlanStore, Call, or_fail, lift, ◌>>=◌, ◌>>◌}

-- The events of a plan, none for a plan that has none.
abbrev pub log_of : String → MemoryPlanStore → List PlanEvent
log_of plan_id s = get_or [] plan_id s.events

abbrev pub event_key_of : String → String → PlanEventIdempotencyKey
event_key_of plan_id key = record { plan_id = plan_id; idempotency_key = key }

-- The event with the identity, the sequence and the time that the store gives it.
unfoldable pub stored_event : Time → PlanEvent → List PlanEvent → PlanEvent
unfolding normalize_durable_timestamp decimal
stored_event now scoped log = record scoped {
  sequence = pos (suc (length log));
  event_id = scoped.plan_id +++ ":" +++ decimal (suc (length log));
  timestamp = normalize_durable_timestamp (if scoped.timestamp == 0 then now else scoped.timestamp);
}

unfoldable pub write_plan_event :
    PlanEventIdempotencyKey → PlanEvent → MemoryPlanStore → MemoryPlanStore
unfolding get_or put
write_plan_event key stored s = record s {
  events = put stored.plan_id (log_of stored.plan_id s ++ stored ∷ []) s.events;
  event_keys = put key stored s.event_keys;
}

unfoldable pub validate_append_input : PlanEvent → String → Option Error
validate_append_input event key =
    if is_empty event.plan_id
    then some (errorf err_invalid_plan_event "plan id is required" [])
    else if is_empty key
    then some (errorf err_invalid_plan_event "plan event idempotency key is required" [])
    else none

unfoldable pub validate_memory_plan_transition_input :
    PlanStateSnapshot → PlanEvent → String → Option Error
validate_memory_plan_transition_input snapshot event key =
    if is_empty event.plan_id
    then some (errorf err_invalid_plan_event "plan id is required" [])
    else if not (key_eq event.plan_id snapshot.spec.plan_id)
    then some (
        errorf err_invalid_plan_event "event plan %q does not match snapshot plan %q"
          (event.plan_id ∷ snapshot.spec.plan_id ∷ []))
    else if is_empty key
    then some (errorf err_invalid_plan_event "plan event idempotency key is required" [])
    else none

unfoldable pub claim_transition : PlanEventIdempotencyKey → String → Call Unit
unfolding put
claim_transition key digest s =
    (ok tt, record s { transition_snapshots = put key digest s.transition_snapshots })

module _ (codec : Codec) where
  -- `scoped` under a key that is free or was claimed.
  unfoldable pub append_scoped : Time → PlanEvent → PlanEventIdempotencyKey → Call PlanEvent
  unfolding get get_or validate_plan_event_idempotency stored_event write_plan_event
  append_scoped now scoped key s = elim (get key s.event_keys) [
    | some existing ↦
        (check (validate_plan_event_idempotency codec existing scoped) (ok existing), s)
    | none ↦
        let stored = stored_event now scoped (log_of scoped.plan_id s) in
        (ok stored, write_plan_event key stored s)
  ]

  unfoldable pub append_as : Time → String → PlanEvent → Call PlanEvent
  unfolding append_scoped
  append_as now key scoped = append_scoped now scoped (event_key_of scoped.plan_id key)

  -- The plan of the event is found.
  unfoldable pub append_found : Time → PlanEvent → String → RunPlanSpec → Call PlanEvent
  unfolding scope_plan_event_to_spec append_as
  append_found now event key spec = lift (scope_plan_event_to_spec event spec) >>= append_as now key

  unfoldable pub append_plan_event_locked : Time → PlanEvent → String → Call PlanEvent
  unfolding get append_found
  append_plan_event_locked now event key s = elim (get event.plan_id s.specs) [
    | none ↦ (err (errorf err_plan_route_not_found "%s" (event.plan_id ∷ [])), s)
    | some spec ↦ append_found now event key spec s
  ]

  unfoldable pub append_plan_event : Time → PlanEvent → String → Call PlanEvent
  unfolding validate_append_input normalize_plan_event_append_request append_plan_event_locked
  append_plan_event now event key =
      or_fail (validate_append_input event key)
        (append_plan_event_locked now (normalize_plan_event_append_request event) key)

  unfoldable pub validate_memory_plan_transition_replay :
      PlanEvent → PlanEvent → String → String → Option Error
  unfolding validate_plan_event_idempotency validate_plan_transition_idempotency
  validate_memory_plan_transition_replay existing requested existing_digest digest =
      first_error (validate_plan_event_idempotency codec existing requested)
        (validate_plan_transition_idempotency existing_digest digest)

  -- What `PersistPlanTransition` does under the lock, once the event has its scope.
  unfoldable pub persist_scoped :
      Time → PlanStateSnapshot → PlanEvent → String → String → Call PlanEvent
  unfolding get get_or validate_memory_plan_transition_replay save_plan_state_locked
      append_plan_event_locked claim_transition
  persist_scoped now snapshot event idempotency digest s =
      let key = event_key_of event.plan_id idempotency in
      elim (get key s.event_keys) [
        | some existing ↦ (
          check
              (validate_memory_plan_transition_replay existing event
                (get_or "" key s.transition_snapshots) digest)
              (ok existing),
          s,
        )
        | none ↦
            (do
              save_plan_state_locked codec snapshot false
              stored ← append_plan_event_locked now event idempotency
              claim_transition key digest
              lift (ok stored))
              s
      ]

  unfoldable pub persist_plan_transition :
      Time → PlanStateSnapshot → PlanEvent → String → Call PlanEvent
  unfolding normalize_memory_plan_state_snapshot validate_memory_plan_transition_input
      new_plan_transition_snapshot_identity normalize_plan_event_append_request
      scope_plan_event_to_spec persist_scoped
  persist_plan_transition now snapshot event key = do
    normalized ← lift (normalize_memory_plan_state_snapshot now snapshot)
    or_fail (validate_memory_plan_transition_input normalized event key) (lift (ok tt))
    digest ← lift (new_plan_transition_snapshot_identity codec normalized key)
    requested ←
        lift (scope_plan_event_to_spec (normalize_plan_event_append_request event) normalized.spec)
    persist_scoped now normalized requested key digest

unfoldable pub memory_plan_event_matches_scope : PlanStreamScope → PlanEvent → Bool
memory_plan_event_matches_scope scope event =
    if leb_ℤ event.sequence scope.after_sequence
    then false
    else if not (is_empty scope.node_id) && not (key_eq event.node_id scope.node_id)
    then false
    else is_empty scope.run_id || key_eq event.run_id scope.run_id

-- The loop stops once `limit` events are kept; a limit of 0 or less is none.
unfoldable pub filter_loop : PlanStreamScope → ℤ → List PlanEvent → List PlanEvent → List PlanEvent
unfolding memory_plan_event_matches_scope
filter_loop scope limit filtered [] = filtered
filter_loop scope limit filtered (event ∷ rest) =
    let kept = filtered ++ event ∷ [] in
    let skipped = filter_loop scope limit filtered rest in
    let further = filter_loop scope limit kept rest in
    if memory_plan_event_matches_scope scope event
    then if ltb_ℤ (pos 0) limit && leb_ℤ limit (pos (length kept)) then kept else further
    else skipped

unfoldable pub filter_memory_plan_events : PlanStreamScope → ℤ → List PlanEvent → List PlanEvent
unfolding filter_loop
filter_memory_plan_events scope limit events = filter_loop scope limit [] events

abbrev pub sequence_leb : PlanEvent → PlanEvent → Bool
sequence_leb a b = leb_ℤ a.sequence b.sequence

unfoldable pub list_plan_events : PlanStreamScope → ℤ → MemoryPlanStore → Result (List PlanEvent)
unfolding validate_plan_stream_scope get get_or validate_plan_tenant_access sort_by
    filter_memory_plan_events
list_plan_events scope limit s =
    check (validate_plan_stream_scope scope) (elim (get scope.plan_id s.specs) [
      | none ↦ err (errorf err_plan_route_not_found "%s" (scope.plan_id ∷ []))
      | some spec ↦ check (validate_plan_tenant_access (stream_ref scope) spec) (
          ok
            (filter_memory_plan_events scope limit (sort_by sequence_leb (log_of scope.plan_id s))))
    ])
