-- ===== src/Plan/Store/Operations.antt =====
-- Transitions and audits as sequences of guarded writes.
use go_agent.Prelude.{
  String, true, false, none, some, ok, string_key, Option-cases, ◌≡◌, refl, inl, inr,
}
use go_agent.Prelude.Dict.{get, get_or, put}
use go_agent.Control.{Time, RunPlanSpec}
use go_agent.Plan.Validator.Validate.{validate_run_plan_scope}
use go_agent.Plan.Store.Records.{
  PlanEvent, PlanStateSnapshot, AuditRecord, event_key, audit_ref_key, command_ref_key,
  checkpoint_key, audit_ref_from_record,
}
use go_agent.Plan.Store.Codec.{Codec, new_plan_transition_snapshot_identity}
use go_agent.Plan.Store.Scope.{scope_plan_event_to_spec}
use go_agent.Plan.Store.Idempotency.{normalize_plan_event_append_request}
use go_agent.Plan.Store.Memory.{normalize_memory_plan_state_snapshot, save_plan_state_locked}
use go_agent.Plan.Store.State.{MemoryPlanStore, Call, or_fail, lift, ◌>>=◌, zero_status}
use go_agent.Plan.Store.Events.{
  event_key_of, append_plan_event_locked, claim_transition, persist_scoped, persist_plan_transition,
  validate_memory_plan_transition_input,
}
use go_agent.Plan.Store.Audits.{
  validate_memory_audit_record, validate_audit_node_run_in_plan, prepare_memory_audit_record,
  record_scoped_audit, record_audit, record_audit_locked,
}
use go_agent.Plan.Store.Writes.{Write, after-or_fail, after-lift, after-bind}
use go_agent.Plan.Store.Calls.{
  save_plan_state_locked-Write, append_plan_event_locked-Write, normalize-scope,
}

module _ (codec : Codec) where
  persist_scoped-Write :
      (now : Time) (snapshot : PlanStateSnapshot) (event : PlanEvent) (key digest : String)
      (s : MemoryPlanStore)
      → validate_run_plan_scope snapshot.spec ≡ none
      → Write codec s (persist_scoped codec now snapshot event key digest s).1
  unfolding persist_scoped claim_transition
  persist_scoped-Write now snapshot event key digest s valid =
      elim (Option-cases (get (event_key_of event.plan_id key) s.event_keys)) [
        | inr (existing, claimed) ↦ rw (claimed, persist_scoped) (Write.stay s)
        | inl free ↦
            let claim = claim_transition (event_key_of event.plan_id key) digest in
            let after_append : PlanEvent → Call PlanEvent =
              λ stored. claim >>= λ done. lift (ok stored) in
            let append = append_plan_event_locked codec now event key in
            rw (free, persist_scoped)
              (after-bind (Write codec s) (save_plan_state_locked codec snapshot false)
                (λ done. append >>= after_append) s
                (save_plan_state_locked-Write codec snapshot false s valid)
                (λ done t saved.
                  after-bind (Write codec s) append after_append t
                    (Write.chain s t _ saved (append_plan_event_locked-Write codec now event key t))
                    (λ stored u appended.
                      Write.chain s u _ appended
                        (Write.claim (event_key_of event.plan_id key) digest u))))
      ]

  pub persist_plan_transition-Write :
      (now : Time) (snapshot : PlanStateSnapshot) (event : PlanEvent) (key : String)
      (s : MemoryPlanStore)
      → Write codec s (persist_plan_transition codec now snapshot event key s).1
  unfolding persist_plan_transition
  persist_plan_transition-Write now snapshot event key s =
      let requested = normalize_plan_event_append_request event in
      let last : PlanStateSnapshot → String → Call PlanEvent = λ normalized digest.
        lift (scope_plan_event_to_spec requested normalized.spec) >>= λ scoped.
        persist_scoped codec now normalized scoped key digest in
      let digested : PlanStateSnapshot → Call PlanEvent = λ normalized.
        lift (new_plan_transition_snapshot_identity codec normalized key) >>= last normalized in
      let checked : PlanStateSnapshot → Call Unit = λ normalized.
        or_fail (validate_memory_plan_transition_input normalized event key) (lift (ok tt)) in
      after-lift (Write codec s) (normalize_memory_plan_state_snapshot now snapshot)
        (λ normalized. checked normalized >>= λ done. digested normalized) s (Write.stay s)
        (λ normalized valid.
          after-bind (Write codec s) (checked normalized) (λ done. digested normalized) s
            (after-or_fail (Write codec s)
              (validate_memory_plan_transition_input normalized event key) (lift (ok tt)) s
              (Write.stay s) (λ passed. Write.stay s))
            (λ done t before.
              after-lift (Write codec s)
                (new_plan_transition_snapshot_identity codec normalized key) (last normalized) t
                before
                (λ digest e.
                  after-lift (Write codec s) (scope_plan_event_to_spec requested normalized.spec)
                    (λ scoped. persist_scoped codec now normalized scoped key digest) t before
                    (λ scoped e'. Write.chain s t _ before (
                      persist_scoped-Write now normalized scoped key digest t
                        (normalize-scope codec now snapshot valid))))))

  record_scoped_audit-Write :
      (now : Time) (spec : RunPlanSpec) (audit : AuditRecord) (s : MemoryPlanStore)
      → get audit.plan_id s.specs ≡ some spec
      → audit.account_id ≡ spec.account_id
      → audit.project_id ≡ spec.project_id
      → Write codec s (record_scoped_audit codec now spec audit s).1
  unfolding record_scoped_audit prepare_memory_audit_record
  record_scoped_audit-Write now spec audit s found account project =
      elim (Option-cases (get (audit_ref_from_record audit) s.audit_keys)) [
        | inr (existing, claimed) ↦ rw (claimed, record_scoped_audit) (Write.stay s)
        | inl free ↦
            let stored =
              prepare_memory_audit_record codec now audit (audit_ref_from_record audit) in
            rw (free, record_scoped_audit)
              (after-or_fail (Write codec s)
                (validate_audit_node_run_in_plan audit spec
                  (get_or zero_status audit.plan_id s.statuses))
                (λ t. (
                  ok (stored, true),
                  record t { audit_keys = put (audit_ref_from_record audit) stored t.audit_keys },
                ))
                s (Write.stay s) (λ passed. Write.audit stored spec s found account project free))
      ]

  pub record_audit-Write :
      (now : Time) (audit : AuditRecord) (s : MemoryPlanStore)
      → Write codec s (record_audit codec now audit s).1
  unfolding record_audit record_audit_locked
  record_audit-Write now audit s =
      after-or_fail (Write codec s) (validate_memory_audit_record audit)
        (record_audit_locked codec now audit) s (Write.stay s)
        (λ passed. elim (Option-cases (get audit.plan_id s.specs)) [
          | inl missing ↦ rw (missing, record_audit_locked) (Write.stay s)
          | inr (spec, found) ↦
              rw (found, record_audit_locked)
                (record_scoped_audit-Write now spec
                  (record audit { account_id = spec.account_id; project_id = spec.project_id }) s
                  found refl refl)
        ])
