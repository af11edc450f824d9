-- ===== src/Plan/Store/Outgoing.antt =====
-- Commands and checkpoints as sequences of guarded writes.
use go_agent.Prelude.{
  String, Option, none, some, ok, string_key, Option-cases, Result-cases, first_error,
  first_error-none, ok_injective, ◌≡◌, refl, sym, ◌∙◌, ap, inl, inr, arith,
}
use go_agent.Prelude.Dict.{get}
use go_agent.Control.{Time}
use go_agent.Plan.Commands.Status.{
  PlanCommandStatus, PlanCommandRef, validate_plan_command_ref, normalize_new_plan_command_status,
  validate_plan_command_status_transition,
}
use go_agent.Plan.Store.Records.{
  PlanCommandRecord, PlanMetricCheckpoint, event_key, audit_ref_key, command_ref_key,
  checkpoint_key, plan_command_ref_from_record,
}
use go_agent.Plan.Store.Codec.{Codec}
use go_agent.Plan.Store.State.{MemoryPlanStore}
use go_agent.Plan.Store.Outbox.{
  validate_memory_plan_command_record, prepare_memory_plan_command_record, record_scoped_command,
  filled_command, record_plan_command_locked, move_command, update_plan_command_status_locked,
  record_plan_command, check_delivered, update_plan_command_status,
}
use go_agent.Plan.Store.Listings.{
  checkpoint_key_of, checkpoint_ref, no_backward, owned_checkpoint, stamped, write_checkpoint_at,
  advance_checkpoint, save_checkpoint_locked, validate_plan_metric_checkpoint_ref,
  save_plan_metric_checkpoint,
}
use go_agent.Plan.Store.Writes.{Write, after-or_fail}

stamped-forward :
    (now : Time) (c : PlanMetricCheckpoint) (existing : Option PlanMetricCheckpoint)
    → no_backward existing c ≡ none
    → no_backward existing (stamped now c) ≡ none
stamped-forward now c none h = refl
stamped-forward now c (some existing) h = h

module _ (codec : Codec) where
  prepare-pending :
      (now : Time) (command : PlanCommandRecord) {stored : PlanCommandRecord}
      → prepare_memory_plan_command_record codec now command ≡ ok stored
      → (stored.status ≡ PlanCommandStatus.pending)
        × (plan_command_ref_from_record stored ≡ plan_command_ref_from_record command)
  unfolding prepare_memory_plan_command_record normalize_new_plan_command_status filled_command
  prepare-pending now command {stored = stored} h =
      elim (Result-cases (normalize_new_plan_command_status command.status)) [
        | inr (e, failed) ↦ cc (rw failed at h)
        | inl (status, passed) ↦
            let same : filled_command codec now status command ≡ stored =
              ok_injective _ stored (rw passed at h) in
            (
              sym (ap (λ (c : PlanCommandRecord). c.status) same) ∙ ground arith,
              sym (ap plan_command_ref_from_record same),
            )
      ]

  record_scoped_command-Write :
      (now : Time) (command : PlanCommandRecord) (s : MemoryPlanStore)
      → Write codec s (record_scoped_command codec now command s).1
  unfolding record_scoped_command
  record_scoped_command-Write now command s =
      elim (Option-cases (get (plan_command_ref_from_record command) s.commands)) [
        | inr (existing, claimed) ↦ rw (claimed, record_scoped_command) (Write.stay s)
        | inl free ↦ elim (Result-cases (prepare_memory_plan_command_record codec now command)) [
          | inr (e, failed) ↦ rw (free, failed, record_scoped_command) (Write.stay s)
          | inl (stored, passed) ↦
              let facts = prepare-pending now command passed in
              rw (free, passed, record_scoped_command, sym facts.1)
                (Write.command stored s facts.0
                  (ap (λ (r : PlanCommandRef). get r s.commands) facts.1 ∙ free))
        ]
      ]

  pub record_plan_command-Write :
      (now : Time) (command : PlanCommandRecord) (s : MemoryPlanStore)
      → Write codec s (record_plan_command codec now command s).1
  unfolding record_plan_command record_plan_command_locked
  record_plan_command-Write now command s =
      after-or_fail (Write codec s) (validate_memory_plan_command_record command)
        (record_plan_command_locked codec now command) s (Write.stay s)
        (λ passed. elim (Option-cases (get command.plan_id s.specs)) [
          | inl missing ↦ rw (missing, record_plan_command_locked) (Write.stay s)
          | inr (spec, found) ↦
              rw (found, record_plan_command_locked)
                (record_scoped_command-Write now
                  (record command { account_id = spec.account_id; project_id = spec.project_id }) s)
        ])

  move_command-Write :
      (now : Time) (ref : PlanCommandRef) (status : PlanCommandStatus) (reason : String)
      (command : PlanCommandRecord) (s : MemoryPlanStore)
      → get ref s.commands ≡ some command
      → Write codec s (move_command codec now ref status reason command s).1
  unfolding move_command
  move_command-Write now ref status reason command s found =
      let transition = validate_plan_command_status_transition command.status status in
      let delivered = check_delivered codec ref status command s in
      elim (Option-cases (
        first_error (validate_plan_command_status_transition command.status status)
          (check_delivered codec ref status command s))) [
            | inr (e, failed) ↦ rw (failed, move_command) (Write.stay s)
            | inl passed ↦
                let both = first_error-none transition delivered passed in
                rw (passed, move_command)
                  (Write.move now ref status reason command s found both.0 both.1)
          ]

  pub update_plan_command_status-Write :
      (now : Time) (ref : PlanCommandRef) (status : PlanCommandStatus) (reason : String)
      (s : MemoryPlanStore)
      → Write codec s (update_plan_command_status codec now ref status reason s).1
  unfolding update_plan_command_status update_plan_command_status_locked
  update_plan_command_status-Write now ref status reason s =
      after-or_fail (Write codec s) (validate_plan_command_ref ref)
        (update_plan_command_status_locked codec now ref status reason) s (Write.stay s)
        (λ passed. elim (Option-cases (get ref s.commands)) [
          | inl missing ↦ rw (missing, update_plan_command_status_locked) (Write.stay s)
          | inr (command, found) ↦
              rw (found, update_plan_command_status_locked)
                (move_command-Write now ref status reason command s found)
        ])

  pub save_plan_metric_checkpoint-Write :
      (now : Time) (c : PlanMetricCheckpoint) (s : MemoryPlanStore)
      → Write codec s (save_plan_metric_checkpoint now c s).1
  unfolding save_plan_metric_checkpoint
  save_plan_metric_checkpoint-Write now c s =
      after-or_fail (Write codec s)
        (validate_plan_metric_checkpoint_ref c c.exporter_id (checkpoint_ref c))
        (save_checkpoint_locked now c) s (Write.stay s)
        (λ valid.
          after-or_fail (Write codec s) (owned_checkpoint c s) (advance_checkpoint now c) s
            (Write.stay s)
            (λ owned.
              after-or_fail (Write codec s) (no_backward (get (checkpoint_key_of c) s.metrics) c)
                (write_checkpoint_at now c) s (Write.stay s)
                (λ forward.
                  Write.checkpoint (stamped now c) s
                    (stamped-forward now c (get (checkpoint_key_of c) s.metrics) forward))))
