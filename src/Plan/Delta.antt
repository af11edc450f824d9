-- ===== src/Plan/Delta.antt =====
-- Dynamic expansion of a plan (internal/usecase/agentosplan/delta.go, `ApplyDelta`).
use go_agent.Prelude.{
  ◌+◌, ◌-◌, ◌^◌, ltb, ℤ, pos, ltb_ℤ, leb_ℤ, ◌≤ℤ◌, ◌<ℤ◌, [], ◌++◌, Result, ok, err, errorf, ◌>>=◌,
  err_invalid_run_plan, if◌then◌else◌, length, ◌≡◌, sym, ap, ◌∙◌, arith, bind_ok, ok_injective,
  Bool-cases, inl, inr,
}
use go_agent.Control.{RunPlanSpec, PlanDeltaSpec}
use go_agent.Plan.Scheduler.Decide.{ExecutablePlan}
use go_agent.Plan.Policy.Guards.{normalize_policy}
use go_agent.Plan.Validator.Contracts.{Validator}
use go_agent.Plan.Validator.Validate.{validate}
use go_agent.Plan.Validator.Executable.{IsExecutable, validate-IsExecutable, validate-spec}

-- The plan with the nodes and edges of the delta behind its own.
abbrev pub grown : RunPlanSpec → PlanDeltaSpec → RunPlanSpec
grown current delta = record current {
  nodes = current.nodes ++ delta.nodes;
  edges = current.edges ++ delta.edges;
}

unfoldable pub apply_delta :
    Validator → RunPlanSpec → PlanDeltaSpec → ℤ → Result (RunPlanSpec × ExecutablePlan)
unfolding normalize_policy validate
apply_delta validator current delta expansion_count =
    let policy = normalize_policy current.policy in
    let total_nodes = length current.nodes + length delta.nodes in
    let next = grown current delta in
    if leb_ℤ policy.max_expansions expansion_count
    then err (errorf err_invalid_run_plan "expansion count exceeds max" [])
    else if ltb (2 ^ 31 - 1) total_nodes
    then err (errorf err_invalid_run_plan "too many nodes" [])
    else if ltb_ℤ policy.max_nodes (pos total_nodes)
    then err (errorf err_invalid_run_plan "delta exceeds max nodes" [])
    else (validate validator next >>= λ plan. ok (next, plan))

-- A delta that is applied gives the plan with its nodes and edges behind those that were there, and
-- the executable plan that the validator makes of it, which is a plan of it; the nodes are within the
-- limit of the policy, and the expansions before it below theirs.
pub apply_delta_lem :
    (validator : Validator) (current : RunPlanSpec) (delta : PlanDeltaSpec) (expansion_count : ℤ)
    {next : RunPlanSpec} {plan : ExecutablePlan}
    → apply_delta validator current delta expansion_count ≡ ok (next, plan)
    → (next ≡ grown current delta)
      × (validate validator next ≡ ok plan)
      × (plan.spec ≡ next)
      × IsExecutable plan
      × (pos (length current.nodes + length delta.nodes)
          ≤ℤ (normalize_policy current.policy).max_nodes)
      × (expansion_count <ℤ (normalize_policy current.policy).max_expansions)
unfolding apply_delta
apply_delta_lem validator current delta expansion_count {next = next} {plan = plan} h =
    let policy = normalize_policy current.policy in
    let total_nodes = length current.nodes + length delta.nodes in
    elim (Bool-cases (leb_ℤ policy.max_expansions expansion_count)) [
      | inl many ↦ cc (rw many at h)
      | inr few ↦ elim (Bool-cases (ltb (2 ^ 31 - 1) total_nodes)) [
        | inl large ↦ cc (rw (few, large) at h)
        | inr small ↦ elim (Bool-cases (ltb_ℤ policy.max_nodes (pos total_nodes))) [
          | inl over ↦ cc (rw (few, small, over) at h)
          | inr within ↦
              let (made, validated, paired) =
                bind_ok (validate validator (grown current delta))
                  (λ plan. ok (grown current delta, plan)) (rw (few, small, within) at h) in
              let same = ok_injective (grown current delta, made) (next, plan) paired in
              let it = ap (λ (p : RunPlanSpec × ExecutablePlan). p.0) same in
              let accepted : validate validator next ≡ ok plan =
                ap (validate validator) (sym it)
                ∙ validated
                ∙ ap (λ (p : RunPlanSpec × ExecutablePlan). ok p.1) same in
              (
                sym it,
                accepted,
                validate-spec validator next accepted,
                validate-IsExecutable validator next accepted,
                ground (arith, within),
                ground (arith, few),
              )
        ]
      ]
    ]
