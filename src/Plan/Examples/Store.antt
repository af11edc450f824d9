-- ===== src/Plan/Examples/Store.antt =====
-- The theorems of the plan store on a store with a plan, an event of it and a delivered command.
use go_agent.Prelude.{
  String, pos, true, false, [], ◌∷◌, none, some, ok, check, key_eq, string_key, ◌≡◌, refl,
  if◌then◌else◌,
}
use go_agent.Prelude.Dict.{get}
use go_agent.Prelude.Decimal.{decimal}
use go_agent.Control.{RunPlanSpec, RunPlanStatus}
use go_agent.Plan.Commands.Status.{PlanCommandStatus}
use go_agent.Plan.Store.Records.{PlanStateSnapshot, PlanCommandRecord, event_key, command_ref_key}
use go_agent.Plan.Store.State.{new_memory_plan_store, zero_status}
use go_agent.Plan.Store.Memory.{create_plan, save_plan_state}
use go_agent.Plan.Store.Events.{append_plan_event, list_plan_events}
use go_agent.Plan.Store.Run.{run}
use go_agent.Plan.Store.AppendOnly.{Keeps, run-Keeps}
use go_agent.Plan.Store.Lockstep.{InLockstep, run-InLockstep, Later, run-Later}
use go_agent.Plan.Store.Timeline.{IsNumbered, run-IsNumbered}
use go_agent.Plan.Store.Ownership.{IsSound, run-IsSound}
use go_agent.Prelude.{ap, is_ok, select}
use go_agent.Plan.Store.Audits.{record_audit}
use go_agent.Plan.Store.Outbox.{record_plan_command}
use go_agent.Plan.Store.Events.{log_of, memory_plan_event_matches_scope}
use go_agent.Plan.Store.Idempotency.{normalize_durable_timestamp, same_request}
use go_agent.Plan.Store.Memory.{load_plan_state, normalize_memory_plan_state_snapshot}
use go_agent.Plan.Store.Pages.{list_plan_events_lem}
use go_agent.Prelude.Page.{page}
use go_agent.Plan.Store.Identity.{Remains, run-Remains}
use go_agent.Plan.Store.Replay.{append_plan_event-replay}
use go_agent.Plan.Store.RoundTrip.{load-save}
use go_agent.Plan.Store.Creation.{create_plan-create_plan}
use go_agent.Plan.Examples.Calls.{
  codec, codec-tells, request, event, command, ref, calls, store, started, scope,
}

listed : list_plan_events scope (pos 10) store ≡ ok (started ∷ [])
unfolding list_plan_events run append_plan_event record_audit record_plan_command create_plan
listed = refl

run-Keeps_example : Keeps store (run codec calls store)
run-Keeps_example = run-Keeps codec calls store

run-InLockstep_example : InLockstep codec store
run-InLockstep_example = run-InLockstep codec calls

run-IsNumbered_example : IsNumbered store
run-IsNumbered_example = run-IsNumbered codec calls

run-IsSound_example : IsSound store
run-IsSound_example = run-IsSound codec codec-tells calls

delivered : (c : PlanCommandRecord) × (get ref store.commands ≡ some c)
unfolding run get append_plan_event record_audit record_plan_command create_plan
delivered = (
  record command {
    account_id = "account";
    project_id = "project";
    payload = some [];
    status = PlanCommandStatus.delivered;
    created_at = 9001;
    updated_at = 9003;
  },
  refl,
)

run-Later_example : Later delivered.0 (get ref (run codec calls store).commands)
run-Later_example = run-Later codec calls store ref delivered.0 delivered.1

list_plan_events_lem_example :
    (started ∷ []
      ≡ page (pos 10) (select (memory_plan_event_matches_scope scope) (log_of "plan" store)))
    × ((found : RunPlanSpec) × (get "plan" store.specs ≡ some found)
        × (found.account_id ≡ "account")
        × (found.project_id ≡ "project"))
list_plan_events_lem_example =
    list_plan_events_lem scope (pos 10) store (run-IsNumbered codec calls) listed

-- The plan as it is stored.
abbrev saved : RunPlanSpec
saved = record request { requested_at = 2000 }

found_saved : get "plan" store.specs ≡ some saved
unfolding run get append_plan_event record_audit record_plan_command create_plan
found_saved = refl

run-Remains_example : Remains saved (get "plan" (run codec calls store).specs)
run-Remains_example = run-Remains codec codec-tells calls store "plan" saved found_saved

appended : append_plan_event codec 9005 event "started" store ≡ (ok started, store)
unfolding run get append_plan_event record_audit record_plan_command create_plan
appended = refl

append_plan_event-replay_example :
    append_plan_event codec 9900 event "started" (run codec calls store)
    ≡ (ok started, run codec calls store)
append_plan_event-replay_example =
    append_plan_event-replay codec codec-tells 9005 9900 event "started" store calls appended refl

abbrev snapshot : PlanStateSnapshot
snapshot = record { spec = request; status = zero_status }

accepted : (save_plan_state codec 9007 snapshot store).0 ≡ ok tt
unfolding run get append_plan_event record_audit record_plan_command create_plan save_plan_state
accepted = refl

load-save_example :
    (normalized : PlanStateSnapshot) × (normalize_memory_plan_state_snapshot 9007 snapshot
      ≡ ok normalized)
    × ((id : String)
        → load_plan_state id (save_plan_state codec 9007 snapshot store).1 ≡ (
            if key_eq normalized.spec.plan_id id
            then some normalized
            else load_plan_state id store))
load-save_example =
    load-save codec 9007 snapshot store
      (ap (λ r. (r, (save_plan_state codec 9007 snapshot store).1)) accepted)

-- The first creation, on a new store.
new_plan :
    (status : RunPlanStatus) × (create_plan codec 9000 request
        (some zero_status)
        new_memory_plan_store
      ≡ (
        ok (status, true),
        (create_plan codec 9000 request (some zero_status) new_memory_plan_store).1,
      ))
unfolding create_plan
new_plan = (record zero_status { plan_id = "plan"; updated_at = 9000 }, refl)

create_plan-create_plan_example :
    create_plan codec 9100 request none
      (create_plan codec 9000 request (some zero_status) new_memory_plan_store).1
    ≡ (
      check
          (same_request codec
            (record request { requested_at = normalize_durable_timestamp request.requested_at })
            request)
          (ok (new_plan.0, false)),
      (create_plan codec 9000 request (some zero_status) new_memory_plan_store).1,
    )
create_plan-create_plan_example =
    create_plan-create_plan codec 9000 9100 request (some zero_status) none new_memory_plan_store
      new_plan.1

-- Asked for at 1,500 nanoseconds, the plan is refused when it is asked for again.
refused_again :
    is_ok
      (create_plan codec 9100 request none
        (create_plan codec 9000 request (some zero_status) new_memory_plan_store).1).0
    ≡ false
unfolding create_plan decimal
refused_again = refl
