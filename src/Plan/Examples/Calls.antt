-- ===== src/Plan/Examples/Calls.antt =====
-- A store with a plan, an event of it and a delivered command.
use go_agent.Prelude.{
  String, pos, List, [], ◌∷◌, none, some, Result, ok, err, errorf, err_foreign, key_eq, key_iff,
  string_key, arith, if◌then◌else◌,
}
use go_agent.Prelude.Decimal.{decimal, ◌+++◌}
use go_agent.Control.{RunPlanSpec}
use go_agent.Plan.Commands.Status.{PlanCommandStatus, PlanCommandRef}
use go_agent.Plan.Store.Records.{
  PlanEvent, PlanStreamScope, PlanCommandRecord, AuditRecord, event_key, command_ref_key,
}
use go_agent.Plan.Store.Codec.{Codec}
use go_agent.Plan.Store.State.{MemoryPlanStore, new_memory_plan_store, zero_status}
use go_agent.Plan.Store.Run.{Op, run}
use go_agent.Plan.Store.Identity.{TellsTenants}
use go_agent.Plan.Examples.Data.{spec}

-- Documents of one project, told apart by the account.
abbrev pub account_document : String → String → Result String
account_document account project =
    if key_eq project "project" then ok account else err (errorf err_foreign "unsupported" [])

abbrev pub codec : Codec
codec = record {
  marshal_spec = λ s. ok (s.plan_id +++ "@" +++ decimal s.requested_at);
  marshal_state_identity = λ f. account_document f.account_id f.project_id;
  marshal_transition = λ f. ok (f.spec.plan_id +++ f.idempotency_key);
  marshal_event_identity = λ f. ok (f.plan_id +++ f.event_type);
  marshal_node = λ n. ok n.node_id;
  marshal_edge = λ e. ok e.edge_id;
  marshal_payload = λ p. ok "{}";
  marshal_ref = λ a b c d. ok (a +++ d);
  sha256_hex = λ s. s;
}

pub codec-tells : TellsTenants codec
codec-tells a b json p q = (
  ground (arith, key_iff a.project_id "project", key_iff b.project_id "project"),
  ground (arith, key_iff a.project_id "project", key_iff b.project_id "project"),
)

-- A request at 1,500 nanoseconds.
abbrev pub request : RunPlanSpec
request = record spec { idempotency_key = "start"; requested_at = 1500 }

abbrev pub event : PlanEvent
event = record {
  event_id = "";
  event_type = "plan.started";
  run_id = "";
  process_id = "";
  thread_id = "";
  sequence = pos 0;
  timestamp = 2600;
  source = "";
  payload = none;
  plan_id = "plan";
  account_id = "";
  project_id = "";
  node_id = "";
  external_event_id = "";
}

abbrev pub command : PlanCommandRecord
command = record {
  command_id = "c1";
  plan_id = "plan";
  account_id = "";
  project_id = "";
  actor_id = "actor";
  action = "plan.start";
  idempotency_key = "start";
  payload = none;
  status = PlanCommandStatus.unset;
  failure_reason = "";
  created_at = 0;
  updated_at = 0;
}

abbrev pub audit : AuditRecord
audit = record {
  audit_id = "a1";
  plan_id = "plan";
  account_id = "";
  project_id = "";
  run_id = "";
  node_id = "";
  actor_id = "actor";
  action = "plan.start";
  idempotency_key = "start";
  payload = none;
  created_at = 0;
}

abbrev pub ref : PlanCommandRef
ref = record {
  plan_id = "plan";
  account_id = "account";
  project_id = "project";
  idempotency_key = "start";
}

-- A plan is created, its start is enqueued, audited and delivered, and an event is appended.
abbrev pub calls : List Op
calls =
    Op.create 9000 request (some zero_status)
    ∷ Op.enqueue 9001 command
    ∷ Op.audit 9002 audit
    ∷ Op.deliver 9003 ref
    ∷ Op.append 9004 event "started"
    ∷ []

abbrev pub store : MemoryPlanStore
store = run codec calls new_memory_plan_store

-- The event as the store keeps it.
abbrev pub started : PlanEvent
started = record event {
  event_id = "plan:1";
  sequence = pos 1;
  timestamp = 3000;
  account_id = "account";
  project_id = "project";
}

abbrev pub scope : PlanStreamScope
scope = record {
  plan_id = "plan";
  account_id = "account";
  project_id = "project";
  node_id = "";
  run_id = "";
  after_sequence = pos 0;
}
