-- ===== src/Plan/Reducer/State.antt =====
-- The state of the reducer and its projection (internal/usecase/agentosplan/state.go, `State`,
-- `NewState`, `refresh`, `sortedNodeStatuses`, `NodeStatus`, `AppliedTransitions`).
use go_agent.Prelude.{
  ℕ, ◌^◌, ℤ, pos, add_int, String, is_empty, str_leb, Bool, true, false, ◌&&◌, not, List, [], ◌∷◌,
  map, Option, none, select, string_key,
}
use go_agent.Prelude.Dict.{Dict, keys, get, get_or, put}
use go_agent.Prelude.Sort.{sort_by}
use go_agent.Control.{
  Time, RunPlanSpec, PlanNodeSpec, PlanNodeStatus, RunPlanStatus, PlanLifecycle, NodeLifecycle,
  zero_node_status,
}

pub record State : Type 0 where
  pub status : RunPlanStatus
  pub nodes : Dict String PlanNodeStatus
  pub transitions : ℤ

-- An int32 has modulus 2 * half_int32, and an int64 has 2 * half_int64.
abbrev pub half_int32 : ℕ
half_int32 = 2 ^ 31

abbrev pub half_int64 : ℕ
half_int64 = 2 ^ 63

-- `sort.Strings(keys)`, then one status for each key.
unfoldable pub sorted_node_statuses : Dict String PlanNodeStatus → List PlanNodeStatus
unfolding sort_by get_or
sorted_node_statuses nodes =
    map (λ key. get_or zero_node_status key nodes) (sort_by str_leb (keys nodes))

abbrev pub is_node_running : NodeLifecycle → Bool
is_node_running NodeLifecycle.running = true
is_node_running _ = false

-- The loop of `refresh`: the run ids of the running nodes that have one.
abbrev pub is_active : PlanNodeStatus → Bool
is_active node = is_node_running node.lifecycle_state && not (is_empty node.run_id)

unfoldable pub active_run_ids : List PlanNodeStatus → List String
active_run_ids nodes = map (λ node. node.run_id) (select is_active nodes)

unfoldable pub refresh : State → Time → State
refresh s at =
    let nodes = sorted_node_statuses s.nodes in
    record s {
      status = record s.status {
        nodes = nodes;
        active_run_ids = active_run_ids nodes;
        updated_at = at;
      };
    }

-- `s.refresh(at); s.transitions++`, with which every successful transition ends.
unfoldable pub settle : State → Time → State
unfolding refresh add_int
settle s at = record (refresh s at) { transitions = add_int half_int32 s.transitions (pos 1) }

unfoldable pub pending_node : PlanNodeSpec → Time → PlanNodeStatus
pending_node node at = record zero_node_status {
  node_id = node.node_id;
  run_id = node.run.run_id;
  backend = node.run.backend;
  lifecycle_state = NodeLifecycle.pending;
  updated_at = at;
}

-- The loop of `NewState`. A second node of one id overwrites the first.
unfoldable pub spec_nodes :
    Dict String PlanNodeStatus → List PlanNodeSpec → Time → Dict String PlanNodeStatus
unfolding put pending_node
spec_nodes nodes [] now = nodes
spec_nodes nodes (node ∷ rest) now =
    spec_nodes (put node.node_id (pending_node node now) nodes) rest now

unfoldable pub new_state : RunPlanSpec → Time → State
unfolding spec_nodes sorted_node_statuses
new_state spec now =
    let nodes = spec_nodes [] spec.nodes now in
    record {
      status = record {
        plan_id = spec.plan_id;
        lifecycle_state = PlanLifecycle.pending;
        nodes = sorted_node_statuses nodes;
        active_run_ids = [];
        artifacts = [];
        reason = "";
        budget_usage = record { spent_cents = pos 0 };
        metadata = spec.metadata;
        started_at = 0;
        updated_at = now;
        blocked_at = 0;
        approval = none;
      };
      nodes = nodes;
      transitions = pos 0;
    }

unfoldable pub node_status : State → String → Option PlanNodeStatus
unfolding get
node_status s node_id = get node_id s.nodes

unfoldable pub applied_transitions : State → ℤ
applied_transitions s = s.transitions
