-- ===== src/Control/Spec.antt =====
-- Specifications of plans: nodes, edges, policies and expansion deltas (agentos/control/plan.go).
use go_agent.Prelude.{ℤ, pos, String, Bool, List, []}
use go_agent.Prelude.Dict.{Dict}
use go_agent.Control.Scalar.{Time, Value, Metadata, BackendRef}

pub record RunSpec : Type 0 where
  pub run_id : String
  pub thread_id : String
  pub account_id : String
  pub project_id : String
  pub agent_id : String
  pub model_ref : String
  pub system_prompt : String
  pub user_message : String
  pub idempotency_key : String
  pub requested_at : Time
  pub metadata : Metadata
  pub backend : BackendRef
  pub input : Dict String Value

-- `unset` is the empty string, and `other` any string that no constant names.
pub data EdgeTrigger : Type 0 where
  unset on_success on_error on_complete on_always : EdgeTrigger
  other : String → EdgeTrigger

pub record InputMapping : Type 0 where
  pub target : String
  pub source_node_id : String
  pub source_artifact : String
  pub source_path : String
  pub expression : String
  pub required : Bool

pub record ArtifactSpec : Type 0 where
  pub name : String
  pub kind : String
  pub media_type : String
  pub schema_ref : String
  pub required : Bool

pub data PlanJoinStrategy : Type 0 where
  unset join_all join_any join_first : PlanJoinStrategy
  other : String → PlanJoinStrategy

pub record NodePolicy : Type 0 where
  pub max_attempts : ℤ
  pub timeout_seconds : ℤ
  pub join : PlanJoinStrategy

pub record PlanNodeSpec : Type 0 where
  pub node_id : String
  pub capability : String
  pub peer : String
  pub run : RunSpec
  pub inputs : List InputMapping
  pub outputs : List ArtifactSpec
  pub conditions : List String
  pub policy : NodePolicy

pub record PlanEdgeSpec : Type 0 where
  pub edge_id : String
  pub from : String
  pub to : String
  pub on : EdgeTrigger
  pub condition : String
  pub input_mapping : List InputMapping

pub record PlanDeltaSpec : Type 0 where
  pub nodes : List PlanNodeSpec
  pub edges : List PlanEdgeSpec

-- The int32 and int64 fields are integers; the operations that add to them wrap.
pub record PlanPolicy : Type 0 where
  pub max_nodes : ℤ
  pub max_depth : ℤ
  pub max_expansions : ℤ
  pub max_iterations : ℤ
  pub max_history_events : ℤ
  pub continue_as_new_events : ℤ
  pub max_parallel_nodes : ℤ
  pub budget_cents : ℤ
  pub timeout_seconds : ℤ
  pub approval_timeout_seconds : ℤ

pub record RunPlanSpec : Type 0 where
  pub plan_id : String
  pub thread_id : String
  pub account_id : String
  pub project_id : String
  pub idempotency_key : String
  pub requested_at : Time
  pub inputs : Dict String Value
  pub metadata : Metadata
  pub nodes : List PlanNodeSpec
  pub edges : List PlanEdgeSpec
  pub policy : PlanPolicy

-- The zero value of a node, which a read of a missing key gives.
abbrev pub zero_node_spec : PlanNodeSpec
zero_node_spec = record {
  node_id = "";
  capability = "";
  peer = "";
  run = record {
    run_id = "";
    thread_id = "";
    account_id = "";
    project_id = "";
    agent_id = "";
    model_ref = "";
    system_prompt = "";
    user_message = "";
    idempotency_key = "";
    requested_at = 0;
    metadata = [];
    backend = record { kind = ""; name = "" };
    input = [];
  };
  inputs = [];
  outputs = [];
  conditions = [];
  policy = record { max_attempts = pos 0; timeout_seconds = pos 0; join = PlanJoinStrategy.unset };
}
