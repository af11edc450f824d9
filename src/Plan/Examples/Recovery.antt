-- ===== src/Plan/Examples/Recovery.antt =====
-- A workflow that goes on from the snapshot it saved, at the small plan.
use go_agent.Prelude.{◌==◌, String, false, some, ok, string_key, ◌≡◌, refl, ap, arith}
use go_agent.Prelude.Dict.{get, has}
use go_agent.Prelude.Members.{contains}
use go_agent.Plan.Reducer.State.{State, new_state}
use go_agent.Plan.Reducer.Apply.{apply}
use go_agent.Plan.Reducer.Restore.{new_state_from_status}
use go_agent.Plan.Reducer.Reach.{Reach}
use go_agent.Plan.Reducer.RoundTrip.{Lists}
use go_agent.Plan.Store.Records.{PlanStateSnapshot}
use go_agent.Plan.Store.Memory.{create_plan, save_plan_state, load_plan_state}
use go_agent.Plan.Store.Events.{append_plan_event}
use go_agent.Plan.Store.Audits.{record_audit}
use go_agent.Plan.Store.Outbox.{record_plan_command}
use go_agent.Plan.Store.Run.{run}
use go_agent.Plan.Recovery.{save-restored}
use go_agent.Plan.Examples.Data.{spec, fresh, start_draft}
use go_agent.Plan.Examples.Calls.{codec, request, store}

abbrev running : State
running = (apply 5 fresh start_draft).0

abbrev snapshot : PlanStateSnapshot
snapshot = record { spec = request; status = running.status }

reached : Reach spec running
unfolding apply new_state
reached = Reach.next 5 start_draft (Reach.begin 1) (omega arith) refl

listed : Lists request running.nodes
unfolding contains has apply new_state
listed = record { named = (refl, (refl, tt)); distinct = (refl, (refl, tt)); same = λ k. refl }

updated : (running.status.updated_at == 0) ≡ false
unfolding apply new_state
updated = refl

saved : (save_plan_state codec 9007 snapshot store).0 ≡ ok tt
unfolding run get append_plan_event record_audit record_plan_command create_plan save_plan_state
    apply new_state
saved = refl

save-restored_example :
    (loaded : PlanStateSnapshot) × (load_plan_state "plan"
        (save_plan_state codec 9007 snapshot store).1
      ≡ some loaded)
    × (t : State) × (new_state_from_status loaded.spec loaded.status ≡ ok t)
    × (t.status ≡ running.status)
    × ((k : String) → get k t.nodes ≡ get k running.nodes)
save-restored_example =
    save-restored codec 9007 request store reached refl refl listed updated
      (ap (λ r. (r, (save_plan_state codec 9007 snapshot store).1)) saved)
