-- ===== src/Plan/Examples/Approval.antt =====
-- The theorem on approval decisions at the small plan.
use go_agent.Prelude.{◌≡◌, refl, true, [], ◌∷◌, some, ok}
use go_agent.Control.{text, ApprovalLifecycle}
use go_agent.Plan.Reducer.State.{new_state}
use go_agent.Plan.Reducer.Apply.{apply}
use go_agent.Plan.Reducer.Gate.{pending_gate}
use go_agent.Plan.Approval.{
  Signal, IdempotencyHash, plan_approval_policy_version, plan_approval_decision_from_signal,
  plan_approval_decision_recorded, plan_signal_reason,
}
use go_agent.Plan.Examples.Data.{spec, fresh, gate, decision, block, approve}

-- A hash that gives every plan one version.
abbrev constant_hash : IdempotencyHash
constant_hash plan_id policy node_ids = ok "v1"

abbrev fine : Signal
fine = record { actor_id = "actor"; payload = ("reason", text "fine") ∷ [] }

opened : (apply 6 fresh block).0.status.approval ≡ some (pending_gate gate)
unfolding apply new_state
opened = refl

made :
    plan_approval_decision_from_signal constant_hash spec (apply 6 fresh block).0.status fine true 9
    ≡ ok decision
unfolding plan_approval_decision_from_signal apply new_state
made = refl

plan_approval_decision_recorded_example :
    (decision ≡ record {
      approved = true;
      actor_id = "actor";
      reason = plan_signal_reason fine;
      policy_version = gate.policy_version;
      decided_at = 9;
    })
    × (plan_approval_policy_version constant_hash spec (apply 6 fresh block).0.status
        ≡ ok gate.policy_version)
    × ((apply 9 (apply 6 fresh block).0 approve).0.status.approval
        ≡ some (record (pending_gate gate) {
          lifecycle_state = ApprovalLifecycle.approved;
          decision = some decision;
        }))
plan_approval_decision_recorded_example =
    plan_approval_decision_recorded constant_hash spec (apply 6 fresh block).0 fine true 9 approve
      (pending_gate gate) decision opened made refl refl refl
