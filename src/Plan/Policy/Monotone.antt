-- ===== src/Plan/Policy/Monotone.antt =====
-- The guards of a policy as a plan goes on (internal/usecase/agentosplan/policy.go).
use go_agent.Prelude.{
  ◌*◌, ◌^◌, ◌+◌, ◌<◌, ℤ, pos, pos_part, leb, ◌≤ℤ◌, ◌<ℤ◌, ◌+ℤ◌, wrap_fits, true, ◌≡◌, arith,
}
use go_agent.Control.{Time, PlanPolicy}
use go_agent.Plan.Policy.Guards.{
  ContinuationSnapshot, evaluate_continuation_policy, second, seconds, has_elapsed, plan_timed_out,
}

-- A plan that continues as new at a snapshot does so at every later one: with more transitions
-- applied and more events in its history.
pub evaluate_continuation_policy_mono :
    (policy : PlanPolicy) (before after : ContinuationSnapshot)
    → before.applied_transitions ≤ℤ after.applied_transitions
    → before.history_events ≤ℤ after.history_events
    → (evaluate_continuation_policy policy before).should_continue ≡ true
    → (evaluate_continuation_policy policy after).should_continue ≡ true
unfolding evaluate_continuation_policy
evaluate_continuation_policy_mono policy before after transitions events h = ground arith

seconds_fits :
    (count : ℤ) → pos_part count * second < 2 ^ 63 → seconds count ≡ pos (pos_part count * second)
unfolding seconds
seconds_fits count h = wrap_fits (2 ^ 63) (pos (pos_part count * second)) (h, omega arith)

-- A plan that has started and whose positive timeout fits the int64 nanoseconds of a duration is
-- timed out exactly from its start plus the timeout on.
pub plan_timed_out_lem :
    (policy : PlanPolicy) (started_at now : Time)
    → pos 0 <ℤ policy.timeout_seconds
    → pos_part policy.timeout_seconds * second < 2 ^ 63
    → 0 < started_at
    → plan_timed_out policy started_at now
      ≡ leb (started_at + pos_part policy.timeout_seconds * second) now
unfolding plan_timed_out has_elapsed ◌+ℤ◌
plan_timed_out_lem policy started_at now positive fits started =
    ground (arith, seconds_fits policy.timeout_seconds fits)
