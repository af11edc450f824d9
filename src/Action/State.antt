-- ===== src/Action/State.antt =====
-- The maps of the in-process store of governed actions
-- (internal/usecase/agentosaction/memory_store.go, `MemoryStore`), and the zero values of their entries.
use go_agent.Prelude.{String, false, string_key, [], none}
use go_agent.Prelude.Dict.{Dict}
use go_agent.Ledger.Records.{resource_key}
use go_agent.Action.Records.{
  GovernedActionSpec, GovernedActionStatus, ActionStartKey, ActionStatusKey, action_start_key,
  action_status_key,
}

pub record MemoryStore : Type 0 where
  pub specs : Dict String GovernedActionSpec
  pub statuses : Dict String GovernedActionStatus
  pub start_keys : Dict ActionStartKey String
  pub status_keys : Dict ActionStatusKey GovernedActionStatus

abbrev pub new_memory_store : MemoryStore
new_memory_store = record { specs = []; statuses = []; start_keys = []; status_keys = [] }

abbrev pub zero_status : GovernedActionStatus
zero_status = record {
  action_id = "";
  account_id = "";
  project_id = "";
  process_id = "";
  resource = record { kind = ""; resource_id = ""; account_id = ""; project_id = "" };
  kind = "";
  lifecycle_state = "";
  dry_run_state = "";
  approval_state = "";
  execution_state = "";
  risk = record { level = ""; reason = ""; evidence_refs = []; assessed_at = 0 };
  reason = "";
  updated_at = 0;
}

abbrev pub zero_spec : GovernedActionSpec
zero_spec = record {
  action_id = "";
  idempotency_key = "";
  account_id = "";
  project_id = "";
  process_id = "";
  resource = record { kind = ""; resource_id = ""; account_id = ""; project_id = "" };
  kind = "";
  intent = "";
  requested_by = record { kind = ""; actor_id = "" };
  requested_at = 0;
  dry_run_required = false;
  approval_required = false;
  risk = record { level = ""; reason = ""; evidence_refs = []; assessed_at = 0 };
  input_refs = [];
  compensation_ref = none;
  metadata = [];
}

abbrev pub action_start_key_from_spec : GovernedActionSpec → ActionStartKey
action_start_key_from_spec spec = record {
  account_id = spec.account_id;
  project_id = spec.project_id;
  idempotency_key = spec.idempotency_key;
}
