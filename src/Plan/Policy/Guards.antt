-- ===== src/Plan/Policy/Guards.antt =====
-- The guards of a plan's policy (internal/usecase/agentosplan/policy.go; validator.go,
-- `normalizePolicy`). The reasons that print a number are left out.
use go_agent.Prelude.{
  ℕ, ◌*◌, ◌^◌, ℤ, pos, pos_part, ◌+ℤ◌, wrap, ltb_ℤ, leb_ℤ, ◌==◌, String, Bool, true, false, ◌&&◌,
  ◌||◌, not, if◌then◌else◌,
}
use go_agent.Control.{Time, PlanPolicy, PlanBudgetUsage}

pub record ContinuationSnapshot : Type 0 where
  pub applied_transitions : ℤ
  pub history_events : ℤ

pub record IterationSnapshot : Type 0 where
  pub iterations : ℤ

pub record ContinuationDecision : Type 0 where
  pub should_continue : Bool
  pub reason : String

pub record IterationDecision : Type 0 where
  pub should_fail : Bool
  pub reason : String

unfoldable pub evaluate_continuation_policy :
    PlanPolicy → ContinuationSnapshot → ContinuationDecision
evaluate_continuation_policy policy snapshot =
    if ltb_ℤ (pos 0) policy.continue_as_new_events
      && leb_ℤ policy.continue_as_new_events snapshot.applied_transitions
    then record { should_continue = true; reason = "continue_as_new_events" }
    else if ltb_ℤ (pos 0) policy.max_history_events
        && leb_ℤ policy.max_history_events snapshot.history_events
    then record { should_continue = true; reason = "max_history_events" }
    else record { should_continue = false; reason = "" }

unfoldable pub evaluate_iteration_policy : PlanPolicy → IterationSnapshot → IterationDecision
evaluate_iteration_policy policy snapshot =
    if ltb_ℤ (pos 0) policy.max_iterations && ltb_ℤ policy.max_iterations snapshot.iterations
    then record { should_fail = true; reason = "max_iterations" }
    else record { should_fail = false; reason = "" }

unfoldable pub budget_exceeded : PlanPolicy → PlanBudgetUsage → Bool
budget_exceeded policy usage =
    ltb_ℤ (pos 0) policy.budget_cents && ltb_ℤ policy.budget_cents usage.spent_cents

abbrev pub second : ℕ
second = 10 ^ 9

-- `time.Duration(seconds) * time.Second` for a positive count: int64 nanoseconds, which wrap.
unfoldable pub seconds : ℤ → ℤ
unfolding wrap
seconds count = wrap (2 ^ 63) (pos (pos_part count * second))

-- `!now.Before(from.Add(timeout))`, where a time is its distance from the zero time.
unfoldable pub has_elapsed : ℤ → Time → Time → Bool
unfolding seconds ◌+ℤ◌
has_elapsed timeout from now = not (ltb_ℤ (pos now) (pos from +ℤ seconds timeout))

unfoldable pub plan_timed_out : PlanPolicy → Time → Time → Bool
unfolding has_elapsed
plan_timed_out policy started_at now =
    if leb_ℤ policy.timeout_seconds (pos 0) || started_at == 0
    then false
    else has_elapsed policy.timeout_seconds started_at now

unfoldable pub plan_blocked_timed_out : PlanPolicy → Time → Time → Bool
unfolding has_elapsed
plan_blocked_timed_out policy blocked_at now =
    if leb_ℤ policy.approval_timeout_seconds (pos 0) || blocked_at == 0
    then false
    else has_elapsed policy.approval_timeout_seconds blocked_at now

abbrev pub default_max_nodes : ℤ
default_max_nodes = pos 256

abbrev pub default_max_depth : ℤ
default_max_depth = pos 32

abbrev pub default_max_expansions : ℤ
default_max_expansions = pos 64

unfoldable pub normalize_policy : PlanPolicy → PlanPolicy
normalize_policy policy = record policy {
  max_nodes = if leb_ℤ policy.max_nodes (pos 0) then default_max_nodes else policy.max_nodes;
  max_depth = if leb_ℤ policy.max_depth (pos 0) then default_max_depth else policy.max_depth;
  max_expansions =
      if leb_ℤ policy.max_expansions (pos 0) then default_max_expansions else policy.max_expansions;
}
