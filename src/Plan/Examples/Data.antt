-- ===== src/Plan/Examples/Data.antt =====
-- A plan of two nodes, `draft` before `review`, and events of it.
use go_agent.Prelude.{String, pos, true, [], ◌∷◌, none, some, ok}
use go_agent.Control.{
  Time, PlanNodeSpec, PlanEdgeSpec, PlanPolicy, RunPlanSpec, EdgeTrigger, PlanApprovalGate,
  PlanApprovalDecision, PlanApprovalStatus, ApprovalLifecycle, zero_node_spec,
}
use go_agent.Plan.Scheduler.Trigger.{ExpressionCompiler}
use go_agent.Plan.Scheduler.Decide.{ExecutablePlan, SchedulerDecision}
use go_agent.Plan.Validator.Contracts.{Validator}
use go_agent.Plan.Reducer.Events.{EventKind, StateEvent}
use go_agent.Plan.Reducer.State.{State, new_state}

abbrev pub node_named : String → String → PlanNodeSpec
node_named name run = record zero_node_spec {
  node_id = name;
  run = record zero_node_spec.run {
    run_id = run;
    backend = record { kind = "native"; name = "goagent-native" };
  };
}

abbrev pub draft_review : PlanEdgeSpec
draft_review = record {
  edge_id = "e1";
  from = "draft";
  to = "review";
  on = EdgeTrigger.unset;
  condition = "";
  input_mapping = [];
}

abbrev pub policy : PlanPolicy
policy = record {
  max_nodes = pos 0;
  max_depth = pos 0;
  max_expansions = pos 0;
  max_iterations = pos 0;
  max_history_events = pos 0;
  continue_as_new_events = pos 3;
  max_parallel_nodes = pos 0;
  budget_cents = pos 0;
  timeout_seconds = pos 60;
  approval_timeout_seconds = pos 0;
}

abbrev pub spec : RunPlanSpec
spec = record {
  plan_id = "plan";
  thread_id = "thread";
  account_id = "account";
  project_id = "project";
  idempotency_key = "";
  requested_at = 0;
  inputs = [];
  metadata = [];
  nodes = node_named "review" "run-2" ∷ node_named "draft" "run-1" ∷ [];
  edges = draft_review ∷ [];
  policy = policy;
}

abbrev pub event_at : EventKind → String → Time → StateEvent
event_at kind node_id at = record {
  kind = kind;
  node_id = node_id;
  run_id = "";
  reason = "";
  attempt = pos 0;
  expansion = record { nodes = []; edges = [] };
  artifacts = [];
  budget_delta = record { spent_cents = pos 0 };
  at = at;
  approval = none;
}

abbrev pub fresh : State
fresh = new_state spec 1

abbrev pub start_draft : StateEvent
start_draft = event_at EventKind.node_started "draft" 5

abbrev pub start_other : StateEvent
start_other = event_at EventKind.node_started "publish" 5

abbrev pub start_plan : StateEvent
start_plan = event_at EventKind.plan_started "" 5

abbrev pub retry_draft : StateEvent
retry_draft = record (event_at EventKind.node_retry_scheduled "draft" 5) { attempt = pos 2 }

abbrev pub grow : StateEvent
grow = record (event_at EventKind.plan_expanded "" 7) {
  expansion = record { nodes = node_named "publish" "run-3" ∷ []; edges = [] };
}

abbrev pub gate : PlanApprovalGate
gate = record {
  summary = "approve";
  node_ids = "draft" ∷ [];
  risk_reason = "risk";
  policy_version = "v1";
  requested_at = 6;
  expires_at = 0;
}

abbrev pub decision : PlanApprovalDecision
decision = record {
  approved = true;
  actor_id = "actor";
  reason = "fine";
  policy_version = "v1";
  decided_at = 9;
}

abbrev pub block : StateEvent
block = record (event_at EventKind.plan_blocked "" 6) {
  approval = some (record { gate = gate; decision = none });
}

abbrev pub approve : StateEvent
approve = record (event_at EventKind.plan_approved "" 9) {
  approval = some (record { gate = gate; decision = some decision });
}

abbrev pub closed_gate : PlanApprovalStatus
closed_gate = record {
  lifecycle_state = ApprovalLifecycle.approved;
  gate = gate;
  decision = some decision;
}

abbrev pub plan : ExecutablePlan
plan = record {
  spec = spec;
  node_by_id = ("review", node_named "review" "run-2") ∷ ("draft", node_named "draft" "run-1") ∷ [];
  edges_by_to = ("review", draft_review ∷ []) ∷ [];
  edges_by_from = ("draft", draft_review ∷ []) ∷ [];
  order = "draft" ∷ "review" ∷ [];
}

-- A compiler that takes every expression for true.
abbrev pub lenient : ExpressionCompiler
lenient = some (λ expression. ok (λ vars. ok true))

abbrev pub first_tick : SchedulerDecision
first_tick = record { ready = node_named "draft" "run-1" ∷ []; skipped = []; condition_traces = [] }

abbrev pub validator : Validator
validator = record {
  expressions = lenient;
  capabilities = none;
  artifact_schemas = none;
  resolve_raw_schema = λ raw. ok (λ value. none);
}
