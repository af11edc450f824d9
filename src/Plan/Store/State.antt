-- ===== src/Plan/Store/State.antt =====
-- The maps of the in-process store, and the calls on it
-- (internal/usecase/agentosplan/plan_store_memory.go, `MemoryPlanStore`, `NewMemoryPlanStore`).
-- A call returns the store that it leaves behind, after an error too. `now` is the reading of the
-- clock, and copies of values are the values.
use go_agent.Prelude.{pos, String, string_key, List, [], Option, none, some, Error, Result, ok, err}
use go_agent.Prelude.Dict.{Dict}
use go_agent.Control.{RunPlanSpec, RunPlanStatus, PlanLifecycle}
use go_agent.Plan.Commands.Status.{PlanCommandRef}
use go_agent.Plan.Store.Records.{
  PlanEvent, PlanCommandRecord, AuditRef, AuditRecord, PlanMetricCheckpoint, PlanStartKey,
  PlanEventIdempotencyKey, PlanMetricCheckpointKey, start_key, event_key,
}

pub record MemoryPlanStore : Type 0 where
  pub specs : Dict String RunPlanSpec
  pub statuses : Dict String RunPlanStatus
  pub plan_keys : Dict PlanStartKey String
  pub events : Dict String (List PlanEvent)
  pub event_keys : Dict PlanEventIdempotencyKey PlanEvent
  pub transition_snapshots : Dict PlanEventIdempotencyKey String
  pub commands : Dict PlanCommandRef PlanCommandRecord
  pub audit_keys : Dict AuditRef AuditRecord
  pub metrics : Dict PlanMetricCheckpointKey PlanMetricCheckpoint

abbrev pub new_memory_plan_store : MemoryPlanStore
new_memory_plan_store = record {
  specs = [];
  statuses = [];
  plan_keys = [];
  events = [];
  event_keys = [];
  transition_snapshots = [];
  commands = [];
  audit_keys = [];
  metrics = [];
}

-- A call on the store.
abbrev pub Call : Type 0 → Type 0
Call A = MemoryPlanStore → Result A × MemoryPlanStore

abbrev pub fail : {A : Type 0} → Error → Call A
fail e s = (err e, s)

-- `if err != nil { return err }`.
abbrev pub or_fail : {A : Type 0} → Option Error → Call A → Call A
or_fail none m s = m s
or_fail (some e) m s = (err e, s)

infixl 5 ◌>>=◌ ◌>>◌
abbrev pub ◌>>=◌ : {A B : Type 0} → Call A → (A → Call B) → Call B
◌>>=◌ m f s = let (r, t) = m s in elim r [ ok a ↦ f a t | err e ↦ (err e, t) ]

abbrev pub ◌>>◌ : {A B : Type 0} → Call A → Call B → Call B
m >> k = m >>= λ _. k

-- A computation that does not read the store.
abbrev pub lift : {A : Type 0} → Result A → Call A
lift r s = (r, s)

abbrev pub zero_spec : RunPlanSpec
zero_spec = record {
  plan_id = "";
  thread_id = "";
  account_id = "";
  project_id = "";
  idempotency_key = "";
  requested_at = 0;
  inputs = [];
  metadata = [];
  nodes = [];
  edges = [];
  policy = record {
    max_nodes = pos 0;
    max_depth = pos 0;
    max_expansions = pos 0;
    max_iterations = pos 0;
    max_history_events = pos 0;
    continue_as_new_events = pos 0;
    max_parallel_nodes = pos 0;
    budget_cents = pos 0;
    timeout_seconds = pos 0;
    approval_timeout_seconds = pos 0;
  };
}

abbrev pub zero_status : RunPlanStatus
zero_status = record {
  plan_id = "";
  lifecycle_state = PlanLifecycle.other "";
  nodes = [];
  active_run_ids = [];
  artifacts = [];
  reason = "";
  budget_usage = record { spent_cents = pos 0 };
  metadata = [];
  started_at = 0;
  updated_at = 0;
  blocked_at = 0;
  approval = none;
}

abbrev pub start_key_of : RunPlanSpec → PlanStartKey
start_key_of spec = record {
  account_id = spec.account_id;
  project_id = spec.project_id;
  idempotency_key = spec.idempotency_key;
}
