-- ===== src/Plan/Approval.antt =====
-- The decision on an approval gate (internal/usecase/agentosplan/approval.go,
-- `PlanApprovalPolicyVersion`, `planNodeGatedByApproval`, `PlanApprovalDecisionFromSignal`;
-- signals.go, `PlanSignalReason`; agentos/core/signal.go, `Signal`).
use go_agent.Prelude.{
  String, Bool, true, false, not, List, [], map, Option, none, some, Result, ok, err, errorf, ◌>>=◌,
  err_invalid_signal, if◌then◌else◌, string_key, key_eq, key_iff, ◌≡◌, sym, ap, ◌∙◌, arith, bind_ok,
}
use go_agent.Prelude.Dict.{Dict, get}
use go_agent.Control.{
  Time, Value, text, PlanPolicy, RunPlanSpec, RunPlanStatus, NodeLifecycle, ApprovalLifecycle,
  PlanApprovalStatus, PlanApprovalDecision,
}
use go_agent.Plan.Reducer.Events.{
  StateEvent, StateEventApproval, EventKind, plan_approved, plan_rejected,
}
use go_agent.Plan.Reducer.State.{State}
use go_agent.Plan.Reducer.Gate.{is_gate_pending}
use go_agent.Plan.Reducer.Apply.{apply}

-- The fields of a signal that are read.
pub record Signal : Type 0 where
  pub actor_id : String
  pub payload : Dict String Value

-- A JSON text and its SHA-256 sum behind the plan id: the policy and the node ids that they stand
-- for go in, and marshalling may fail.
abbrev pub IdempotencyHash : Type 0
IdempotencyHash = String → PlanPolicy → List String → Result String

unfoldable pub plan_approval_policy_version :
    IdempotencyHash → RunPlanSpec → RunPlanStatus → Result String
plan_approval_policy_version hash spec status =
    hash spec.plan_id spec.policy (map (λ node. node.node_id) status.nodes)

unfoldable pub plan_node_gated_by_approval : NodeLifecycle → Bool
plan_node_gated_by_approval NodeLifecycle.succeeded = false
plan_node_gated_by_approval NodeLifecycle.skipped = false
plan_node_gated_by_approval NodeLifecycle.failed = false
plan_node_gated_by_approval NodeLifecycle.canceled = false
plan_node_gated_by_approval _ = true

abbrev reason_of : Option Value → String
reason_of (some (text reason)) = reason
reason_of _ = ""

-- The signal is not nil.
unfoldable pub plan_signal_reason : Signal → String
unfolding get
plan_signal_reason signal = reason_of (get "reason" signal.payload)

unfoldable pub signal_decision : Bool → Signal → String → Time → PlanApprovalDecision
unfolding plan_signal_reason
signal_decision approved signal live_version now = record {
  approved = approved;
  actor_id = signal.actor_id;
  reason = plan_signal_reason signal;
  policy_version = live_version;
  decided_at = now;
}

-- The tests of a gate that is there.
unfoldable pub check_gate :
    Option PlanApprovalStatus → String → PlanApprovalDecision → Result PlanApprovalDecision
check_gate none live_version decision = ok decision
check_gate (some current) live_version decision =
    if not (is_gate_pending current.lifecycle_state)
    then err (errorf err_invalid_signal "approval already decided" [])
    else if not (key_eq current.gate.policy_version live_version)
    then err (errorf err_invalid_signal "approval gate is stale" [])
    else ok decision

unfoldable pub plan_approval_decision_from_signal :
    IdempotencyHash
    → RunPlanSpec
    → RunPlanStatus
    → Signal
    → Bool
    → Time
    → Result PlanApprovalDecision
unfolding plan_approval_policy_version check_gate signal_decision
plan_approval_decision_from_signal hash spec status signal approved now =
    plan_approval_policy_version hash spec status >>= λ live_version.
    check_gate status.approval live_version (signal_decision approved signal live_version now)

abbrev pub decided : Bool → ApprovalLifecycle
decided approved = if approved then ApprovalLifecycle.approved else ApprovalLifecycle.rejected

abbrev pub decision_kind : Bool → EventKind
decision_kind approved = if approved then plan_approved else plan_rejected

check_gate-pending :
    (gate : PlanApprovalStatus) (live_version : String) (d decision : PlanApprovalDecision)
    → check_gate (some gate) live_version d ≡ ok decision
    → (is_gate_pending gate.lifecycle_state ≡ true)
      × (key_eq gate.gate.policy_version live_version ≡ true)
      × (d ≡ decision)
unfolding check_gate
check_gate-pending gate live_version d decision h = (ground arith, ground arith, ground arith)

decision_applied :
    (now : Time) (s : State) (event : StateEvent) (approved : Bool) (gate : PlanApprovalStatus)
    (decision : PlanApprovalDecision) (carried : StateEventApproval)
    → s.status.approval ≡ some gate
    → is_gate_pending gate.lifecycle_state ≡ true
    → event.kind ≡ decision_kind approved
    → event.approval ≡ some carried
    → carried.decision ≡ some decision
    → (apply now s event).0.status.approval
      ≡ some (record gate { lifecycle_state = decided approved; decision = some decision })
unfolding apply
decision_applied now s event true gate decision carried found pending kind carries decides =
    ground arith
decision_applied now s event false gate decision carried found pending kind carries decides =
    ground arith

-- A decision that a signal makes on a gate is what the signal says, by its actor and for its reason,
-- at the time of the call, and for the version of the gate, which is the live version of the plan;
-- the event of the kind of the decision that carries it records it: the gate is approved or rejected
-- as the signal says, with this decision.
pub plan_approval_decision_recorded :
    (hash : IdempotencyHash) (spec : RunPlanSpec) (s : State) (signal : Signal) (approved : Bool)
    (now : Time) (event : StateEvent) (gate : PlanApprovalStatus) (decision : PlanApprovalDecision)
    {carried : StateEventApproval}
    → s.status.approval ≡ some gate
    → plan_approval_decision_from_signal hash spec s.status signal approved now ≡ ok decision
    → event.kind ≡ decision_kind decision.approved
    → event.approval ≡ some carried
    → carried.decision ≡ some decision
    → (decision ≡ record {
      approved = approved;
      actor_id = signal.actor_id;
      reason = plan_signal_reason signal;
      policy_version = gate.gate.policy_version;
      decided_at = now;
    })
      × (plan_approval_policy_version hash spec s.status ≡ ok gate.gate.policy_version)
      × ((apply now s event).0.status.approval
          ≡ some (record gate { lifecycle_state = decided approved; decision = some decision }))
unfolding plan_approval_decision_from_signal signal_decision
plan_approval_decision_recorded hash spec s signal approved now event gate decision
      {carried = carried} found made kind carries decides =
    let (live, versioned, checked) =
      bind_ok (plan_approval_policy_version hash spec s.status)
        (λ live_version.
          check_gate s.status.approval live_version
            (signal_decision approved signal live_version now))
        made in
    let (pending, fits, says) =
      check_gate-pending gate live (signal_decision approved signal live now) decision
        (rw found at checked) in
    let version = (key_iff gate.gate.policy_version live).0 fits in
    let way : approved ≡ decision.approved = ap (λ (d : PlanApprovalDecision). d.approved) says in
    (
      sym says ∙ ap (λ v. signal_decision approved signal v now) (sym version),
      versioned ∙ ap ok (sym version),
      decision_applied now s event approved gate decision carried found pending
          (kind ∙ ap decision_kind (sym way)) carries decides,
    )
