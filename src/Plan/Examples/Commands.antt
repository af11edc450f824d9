-- ===== src/Plan/Examples/Commands.antt =====
-- The theorems of the command outbox and of the policy guards at small inputs.
use go_agent.Prelude.{◌+◌, ◌*◌, ◌≡◌, refl, pos, true, leb, List, [], ◌∷◌, none, ok, arith, All}
use go_agent.Prelude.Members.{contains, Distinct}
use go_agent.Plan.Commands.Status.{
  PlanCommandStatus, PlanCommandScope, status_key, is_recoverable,
  validate_plan_command_status_transition, recoverable_plan_command_statuses,
}
use go_agent.Plan.Commands.Lifecycle.{Reach, Reach-final, recoverable_lem}
use go_agent.Plan.Policy.Guards.{plan_timed_out, second}
use go_agent.Plan.Policy.Monotone.{plan_timed_out_lem}
use go_agent.Plan.Examples.Data.{policy}

accepted :
    validate_plan_command_status_transition PlanCommandStatus.failed PlanCommandStatus.delivered
    ≡ none
unfolding validate_plan_command_status_transition
accepted = refl

Reach-final_example :
    (PlanCommandStatus.failed ≡ PlanCommandStatus.delivered
      → PlanCommandStatus.delivered ≡ PlanCommandStatus.delivered)
    × (PlanCommandStatus.delivered ≡ PlanCommandStatus.pending
        → PlanCommandStatus.failed ≡ PlanCommandStatus.pending)
Reach-final_example = Reach-final (
    Reach.move PlanCommandStatus.failed PlanCommandStatus.failed PlanCommandStatus.delivered
      (Reach.start PlanCommandStatus.failed) accepted)

abbrev query : PlanCommandScope
query = record {
  plan_id = "";
  account_id = "account";
  project_id = "project";
  action = "";
  statuses = PlanCommandStatus.failed ∷ PlanCommandStatus.pending ∷ PlanCommandStatus.failed ∷ [];
  limit = pos 10;
}

abbrev asked : List PlanCommandStatus
asked = PlanCommandStatus.failed ∷ PlanCommandStatus.pending ∷ []

found : recoverable_plan_command_statuses query ≡ ok asked
unfolding recoverable_plan_command_statuses
found = refl

recoverable_lem_example :
    Distinct asked
    × All (λ status. is_recoverable status ≡ true) asked
    × ((k : PlanCommandStatus) → contains k asked ≡ contains k query.statuses)
recoverable_lem_example =
    recoverable_lem query PlanCommandStatus.failed
      (PlanCommandStatus.pending ∷ PlanCommandStatus.failed ∷ []) refl found

plan_timed_out_lem_example :
    plan_timed_out policy 5 (61 * second) ≡ leb (5 + 60 * second) (61 * second)
plan_timed_out_lem_example =
    plan_timed_out_lem policy 5 (61 * second) (omega arith) (omega arith) (omega arith)
