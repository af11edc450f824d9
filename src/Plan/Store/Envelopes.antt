-- ===== src/Plan/Store/Envelopes.antt =====
-- The tests that a repeated event, audit record or command is the one that claimed its key
-- (internal/usecase/agentosplan/idempotency.go, `ValidatePlanEventIdempotency`,
-- `ValidateAuditIdempotency`, `ValidatePlanCommandIdempotency`).
use go_agent.Prelude.{
  ◌==◌, ◌==ℤ◌, pos, is_empty, Bool, not, ◌&&◌, ◌||◌, key_eq, string_key, [], ◌∷◌, Option, some,
  Error, errorf, err_invalid_run_plan, err_invalid_plan_event, first_error, if◌then◌else◌,
}
use go_agent.Control.{Time}
use go_agent.Plan.Store.Records.{PlanEvent, AuditRecord, PlanCommandRecord}
use go_agent.Plan.Store.Codec.{
  Codec, or_message, normalize_payload, plan_event_idempotency_identity,
}
use go_agent.Plan.Store.Idempotency.{same_json, require, belongs}

unfoldable pub same_time : Time → Time → Bool
same_time left right = if left == 0 || right == 0 then left == 0 && right == 0 else left == right

-- The two audit records name the same action, in the order of `validateAuditReplayScope`.
unfoldable pub validate_audit_replay_scope : AuditRecord → AuditRecord → Option Error
validate_audit_replay_scope existing requested =
    first_error
      (belongs "audit idempotency key belongs to plan %q" existing.plan_id requested.plan_id)
      (first_error
        (belongs "audit idempotency key belongs to account %q" existing.account_id
          requested.account_id)
        (first_error
          (belongs "audit idempotency key belongs to project %q" existing.project_id
            requested.project_id)
          (first_error
            (belongs "audit idempotency key belongs to run %q" existing.run_id requested.run_id)
            (first_error
              (belongs "audit idempotency key belongs to node %q" existing.node_id
                requested.node_id)
              (first_error
                (belongs "audit idempotency key belongs to actor %q" existing.actor_id
                  requested.actor_id)
                (first_error
                  (belongs "audit idempotency key belongs to action %q" existing.action
                    requested.action)
                  (require (key_eq existing.idempotency_key requested.idempotency_key)
                    (errorf err_invalid_run_plan "audit idempotency key mismatch" []))))))))

module _ (codec : Codec) where
  -- The durable fields of the two events are the same document.
  unfoldable pub same_event : PlanEvent → PlanEvent → Option Error
  same_event existing requested =
      same_json
        (errorf err_invalid_plan_event
          "plan event idempotency key was reused with a different event" [])
        (or_message (errorf err_invalid_plan_event "marshal existing plan event: %w" [])
          (codec.marshal_event_identity (plan_event_idempotency_identity existing)))
        (or_message (errorf err_invalid_plan_event "marshal requested plan event: %w" [])
          (codec.marshal_event_identity (plan_event_idempotency_identity requested)))

  unfoldable pub validate_plan_event_idempotency : PlanEvent → PlanEvent → Option Error
  unfolding same_time same_event
  validate_plan_event_idempotency existing requested =
      if not (is_empty requested.event_id) && not (key_eq existing.event_id requested.event_id)
      then some (
          errorf err_invalid_plan_event "plan event idempotency key belongs to event %q"
            (existing.event_id ∷ []))
      else if not (requested.sequence ==ℤ pos 0) && not (existing.sequence ==ℤ requested.sequence)
      then some
          (errorf err_invalid_plan_event "plan event idempotency key belongs to sequence %d" [])
      else if not (requested.timestamp == 0)
          && not (same_time existing.timestamp requested.timestamp)
      then some
          (errorf err_invalid_plan_event "plan event idempotency key belongs to timestamp %s" [])
      else same_event existing requested

  unfoldable pub validate_audit_idempotency : AuditRecord → AuditRecord → Option Error
  unfolding validate_audit_replay_scope
  validate_audit_idempotency existing requested =
      first_error (validate_audit_replay_scope existing requested) (
        same_json
          (errorf err_invalid_run_plan "audit idempotency key was reused with a different payload"
            [])
          (or_message (errorf err_invalid_run_plan "marshal existing audit payload: %w" [])
            (codec.marshal_payload (normalize_payload existing.payload)))
          (or_message (errorf err_invalid_run_plan "marshal requested audit payload: %w" [])
            (codec.marshal_payload (normalize_payload requested.payload))))

  unfoldable pub validate_plan_command_idempotency :
      PlanCommandRecord → PlanCommandRecord → Option Error
  validate_plan_command_idempotency existing requested =
      first_error
        (belongs "command idempotency key belongs to plan %q" existing.plan_id requested.plan_id)
        (first_error
          (belongs "command idempotency key belongs to account %q" existing.account_id
            requested.account_id)
          (first_error
            (belongs "command idempotency key belongs to project %q" existing.project_id
              requested.project_id)
            (first_error
              (belongs "command idempotency key belongs to actor %q" existing.actor_id
                requested.actor_id)
              (first_error
                (belongs "command idempotency key belongs to action %q" existing.action
                  requested.action)
                (first_error
                  (require (key_eq existing.idempotency_key requested.idempotency_key)
                    (errorf err_invalid_run_plan "command idempotency key mismatch" []))
                  (same_json
                    (errorf err_invalid_run_plan
                      "command idempotency key was reused with a different payload" [])
                    (or_message
                      (errorf err_invalid_run_plan "marshal existing command payload: %w" [])
                      (codec.marshal_payload (normalize_payload existing.payload)))
                    (or_message
                      (errorf err_invalid_run_plan "marshal requested command payload: %w" [])
                      (codec.marshal_payload (normalize_payload requested.payload)))))))))
