-- ===== src/Action/Examples.antt =====
-- An action with a dry run and an approval, which two operators resolve at the same time.
use go_agent.Prelude.{String, true, [], ◌∷◌, none, some, Result, ok, check, string_key, ◌≡◌, refl}
use go_agent.Prelude.Dict.{get, get_or}
use go_agent.Action.Records.{
  ActionRef, ActionRiskAssessment, GovernedActionSpec, GovernedActionStatus, ActionDryRunResult,
  ActionApprovalDecision,
}
use go_agent.Action.Memory.{
  update_action_status, normalize_action_status, validate_update_action_status_input,
}
use go_agent.Action.State.{new_memory_store, zero_status}
use go_agent.Action.Runtime.{draft_action, request_action}
use go_agent.Action.Lifecycle.{Call, Draft, initial_action_status, dry_run_draft, approval_draft}
use go_agent.Action.Gates.{IsGated}
use go_agent.Action.System.{System, Step, Steps, Reach, new_system}
use go_agent.Action.Safety.{Reach-IsGated}
use go_agent.Action.Replay.{update-update}

abbrev marshal : GovernedActionSpec → Result String
marshal spec = ok spec.action_id

abbrev no_risk : ActionRiskAssessment
no_risk = record { level = ""; reason = ""; evidence_refs = []; assessed_at = 0 }

abbrev refund : GovernedActionSpec
refund = record {
  action_id = "a1";
  idempotency_key = "k1";
  account_id = "account";
  project_id = "project";
  process_id = "p1";
  resource = record { kind = ""; resource_id = ""; account_id = ""; project_id = "" };
  kind = "refund";
  intent = "";
  requested_by = record { kind = "agent"; actor_id = "agent" };
  requested_at = 0;
  dry_run_required = true;
  approval_required = true;
  risk = no_risk;
  input_refs = [];
  compensation_ref = none;
  metadata = [];
}

abbrev ref : ActionRef
ref = record { action_id = "a1"; account_id = "account"; project_id = "project" }

abbrev rehearsal : ActionDryRunResult
rehearsal = record {
  idempotency_key = "d1";
  succeeded = true;
  summary = "";
  risk = no_risk;
  output_refs = [];
  recorded_at = 0;
}

abbrev consent : ActionApprovalDecision
consent = record {
  idempotency_key = "c1";
  approved = true;
  actor = record { kind = "human"; actor_id = "h1" };
  reason = "";
  decided_at = 0;
}

abbrev requested : System
requested = record new_system { store = (request_action marshal 10 refund new_memory_store).1 }

abbrev first : GovernedActionStatus
first = normalize_action_status refund (initial_action_status 10 refund)

abbrev rehearsed : Draft
rehearsed = dry_run_draft 20 rehearsal refund first

abbrev consented : Draft
consented = approval_draft 30 consent refund first

-- Both have read the first status; the dry run is written, and then the approval over it.
abbrev both_read : System
both_read = record requested { drafts = consented ∷ rehearsed ∷ [] }

abbrev one_written : System
one_written = record {
  store = (update_action_status rehearsed.status "d1" both_read.store).1;
  drafts = consented ∷ [];
}

abbrev both_written : System
both_written = record {
  store = (update_action_status consented.status "c1" one_written.store).1;
  drafts = [];
}

reads_rehearsal : draft_action 20 ref (Call.record_dry_run rehearsal) requested.store ≡ ok rehearsed
unfolding draft_action request_action get get_or
reads_rehearsal = refl

reads_consent : draft_action 30 ref (Call.resolve_approval consent) requested.store ≡ ok consented
unfolding draft_action request_action get get_or
reads_consent = refl

reached : Reach marshal both_written
reached =
    Steps.next_step
      (Steps.next_step
        (Steps.next_step
          (Steps.next_step (Steps.next_step Steps.here (Step.request 10 refund new_system))
            (Step.read 20 ref (Call.record_dry_run rehearsal) rehearsed requested reads_rehearsal))
          (Step.read 30 ref (Call.resolve_approval consent) consented
            (record requested { drafts = rehearsed ∷ [] }) reads_consent))
        (Step.write (consented ∷ []) [] rehearsed both_read refl))
      (Step.write [] [] consented one_written refl)

stored : get "a1" both_written.store.specs ≡ some refund
unfolding request_action get update_action_status
stored = refl

Reach-IsGated_example :
    (refund.action_id ≡ "a1") × IsGated refund (get_or zero_status "a1" both_written.store.statuses)
Reach-IsGated_example = Reach-IsGated "a1" refund reached stored

later : Steps marshal one_written both_written
later = Steps.next_step Steps.here (Step.write [] [] consented one_written refl)

written_first :
    update_action_status rehearsed.status "d1" requested.store
    ≡ (ok rehearsed.status, one_written.store)
unfolding request_action update_action_status
written_first = refl

update-update_example : update_action_status consented.status "d1" both_written.store ≡ (
  check (validate_update_action_status_input consented.status "d1") (ok rehearsed.status),
  both_written.store,
)
update-update_example =
    update-update rehearsed.status consented.status "d1" requested.store written_first later refl
