-- ===== src/Plan/Examples/Reducer.antt =====
-- The theorems of the reducer at the small plan.
use mathlib.Core.List.{Perm}
use go_agent.Prelude.{
  ◌<◌, ◌≡◌, ◌≢◌, refl, pos, String, true, [], ◌∷◌, none, some, ok, arith, string_key, add_int,
  errorf, err_invalid_run_plan,
}
use go_agent.Prelude.Dict.{get, has}
use go_agent.Prelude.Sort.{IsSortedBy}
use go_agent.Prelude.Members.{contains}
use go_agent.Control.{PlanNodeStatus, NodeLifecycle}
use go_agent.Plan.Reducer.Events.{EventKind}
use go_agent.Plan.Reducer.State.{State, new_state, active_run_ids, pending_node, half_int32}
use go_agent.Plan.Reducer.Apply.{apply}
use go_agent.Plan.Reducer.Restore.{new_state_from_status}
use go_agent.Plan.Reducer.Reach.{Reach, IsSound, Reach-IsSound, Reach-restored}
use go_agent.Plan.Reducer.NodeMap.{IsNodeMap}
use go_agent.Plan.Reducer.RoundTrip.{Lists}
use go_agent.Plan.Reducer.Projection.{values, by_node_id, apply_projection}
use go_agent.Plan.Reducer.Frame.{apply_frame, expansion_frame, apply-has}
use go_agent.Plan.Reducer.Approval.{IsGated, apply-IsGated, decision_kept, apply-identity}
use go_agent.Plan.Reducer.Lifecycle.{retry-start}
use go_agent.Plan.Reducer.Errors.{apply-error_unchanged, apply-transitions}
use go_agent.Plan.Examples.Data.{
  spec, node_named, fresh, start_draft, start_other, start_plan, retry_draft, grow, block, approve,
  closed_gate,
}

started_reached : Reach spec (apply 5 fresh start_draft).0
unfolding apply new_state
started_reached = Reach.next 5 start_draft (Reach.begin 1) (omega arith) refl

Reach-IsSound_example : IsSound spec (apply 5 fresh start_draft).0
Reach-IsSound_example = Reach-IsSound started_reached

spec_listed : Lists spec (apply 5 fresh start_draft).0.nodes
unfolding contains has apply new_state
spec_listed = record { named = (refl, (refl, tt)); distinct = (refl, (refl, tt)); same = λ k. refl }

Reach-restored_example :
    (t : State) × (new_state_from_status spec (apply 5 fresh start_draft).0.status ≡ ok t)
    × (t.status ≡ (apply 5 fresh start_draft).0.status)
    × ((k : String) → get k t.nodes ≡ get k (apply 5 fresh start_draft).0.nodes)
Reach-restored_example = Reach-restored spec started_reached refl refl spec_listed

started_first : Reach spec fresh
started_first = Reach.begin 1

fresh_map : IsNodeMap fresh.nodes
fresh_map = (Reach-IsSound started_first).node_map

accepted : (apply 5 fresh start_draft).1 ≡ none
unfolding apply new_state
accepted = refl

apply_projection_example :
    let t = (apply 5 fresh start_draft).0 in
    Perm t.status.nodes (values t.nodes)
    × IsSortedBy by_node_id t.status.nodes
    × (t.status.active_run_ids ≡ active_run_ids t.status.nodes)
apply_projection_example = apply_projection 5 fresh start_draft fresh_map accepted

kinds_differ : EventKind.node_started ≢ EventKind.plan_expanded
kinds_differ h = cc

abbrev draft : String
draft = "draft"

abbrev review : String
review = "review"

names_differ : draft ≢ review
names_differ h = cc

apply_frame_example : get "review" (apply 5 fresh start_draft).0.nodes ≡ get "review" fresh.nodes
apply_frame_example = apply_frame 5 fresh start_draft "review" kinds_differ names_differ

draft_found : get "draft" fresh.nodes ≡ some (pending_node (node_named "draft" "run-1") 1)
unfolding get new_state
draft_found = refl

expansion_frame_example :
    get "draft" (apply 7 fresh grow).0.nodes ≡ some (pending_node (node_named "draft" "run-1") 1)
expansion_frame_example = expansion_frame 7 fresh grow "draft" refl draft_found

fresh-IsGated : IsGated fresh.status
fresh-IsGated = (Reach-IsSound started_first).gated

apply-IsGated_example : IsGated (apply 6 fresh block).0.status
apply-IsGated_example = apply-IsGated 6 fresh block (omega arith) fresh-IsGated

retry-start_example :
    let u = (apply 6 (apply 5 fresh retry_draft).0 start_draft).0 in
    (n : PlanNodeStatus) × (get "draft" u.nodes ≡ some n)
    × (n.lifecycle_state ≡ NodeLifecycle.running)
    × (n.attempts ≡ pos 2)
unfolding pending_node
retry-start_example =
    retry-start 5 6 fresh retry_draft start_draft refl refl refl draft_found refl
      (omega arith, omega arith) refl refl

refused :
    (apply 5 fresh start_other).1
    ≡ some (errorf err_invalid_run_plan "unknown node %q" ("publish" ∷ []))
unfolding apply new_state
refused = refl

apply-error_unchanged_example : (apply 5 fresh start_other).0 ≡ fresh
apply-error_unchanged_example = apply-error_unchanged 5 fresh start_other refl refused

apply-transitions_example :
    (apply 5 fresh start_draft).0.transitions ≡ (elim (apply 5 fresh start_draft).1 [
      | none ↦ add_int half_int32 fresh.transitions (pos 1)
      | some e ↦ fresh.transitions
    ])
apply-transitions_example = apply-transitions 5 fresh start_draft

draft_there : has "draft" fresh.nodes ≡ true
unfolding has new_state
draft_there = refl

apply-has_example : has "draft" (apply 5 fresh start_draft).0.nodes ≡ true
apply-has_example = apply-has 5 fresh start_draft "draft" draft_there

abbrev approved : State
unfolding apply new_state
approved = (apply 9 (apply 6 fresh block).0 approve).0

approved_gate : approved.status.approval ≡ some closed_gate
unfolding approved
approved_gate = refl

decision_kept_example : (apply 10 approved start_draft).0.status.approval ≡ some closed_gate
decision_kept_example =
    decision_kept 10 approved start_draft closed_gate approved_gate refl (λ h. cc) kinds_differ

apply-identity_example :
    let t = (apply 6 (apply 5 fresh start_plan).0 block).0 in
    let s = (apply 5 fresh start_plan).0 in
    (t.status.plan_id ≡ s.status.plan_id)
    × (t.status.metadata ≡ s.status.metadata)
    × (0 < s.status.started_at → t.status.started_at ≡ s.status.started_at)
apply-identity_example = apply-identity 6 (apply 5 fresh start_plan).0 block
