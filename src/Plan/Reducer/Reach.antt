-- ===== src/Plan/Reducer/Reach.antt =====
-- The states that a plan reaches: its first state, and what accepted events make of a reached one.
use go_agent.Prelude.{
  ◌<◌, String, false, List, [], ◌∷◌, map, none, ◌≡◌, refl, sym, ap, ◌∙◌, arith, Bool-cases,
  string_key, key_eq, inl, inr, select, is_empty, str_leb, ok,
}
use go_agent.Prelude.Dict.{Dict, keys, get, get_or, put, get_or-put}
use go_agent.Prelude.Sort.{sort_by}
use go_agent.Control.{Time, PlanNodeSpec, PlanNodeStatus, RunPlanSpec, zero_node_status}
use go_agent.Plan.Reducer.Events.{StateEvent}
use go_agent.Plan.Reducer.State.{
  State, new_state, spec_nodes, pending_node, sorted_node_statuses, active_run_ids, is_active,
}
use go_agent.Plan.Reducer.Restore.{new_state_from_status}
use go_agent.Plan.Reducer.Apply.{apply, event_time}
use go_agent.Plan.Reducer.NodeMap.{IsNodeMap, put-IsNodeMap}
use go_agent.Plan.Reducer.Frame.{apply-IsNodeMap}
use go_agent.Plan.Reducer.Projection.{IsProjected, apply-IsProjected, read}
use go_agent.Plan.Reducer.Approval.{IsGated, apply-IsGated, apply-identity}
use go_agent.Plan.Reducer.RoundTrip.{Lists, restore_round_trip}

spec_nodes-IsNodeMap :
    (nodes : Dict String PlanNodeStatus) (specs : List PlanNodeSpec) (now : Time)
    → IsNodeMap nodes
    → IsNodeMap (spec_nodes nodes specs now)
unfolding spec_nodes
spec_nodes-IsNodeMap nodes [] now h = h
spec_nodes-IsNodeMap nodes (node ∷ rest) now h =
    spec_nodes-IsNodeMap (put node.node_id (pending_node node now) nodes) rest now
      (put-IsNodeMap node.node_id (pending_node node now) nodes refl h)

-- No read of the map shows an active node.
abbrev IsIdle : Dict String PlanNodeStatus → Type 0
IsIdle nodes = (k : String) → is_active (read nodes k) ≡ false

put-IsIdle :
    (key : String) (node : PlanNodeStatus) (nodes : Dict String PlanNodeStatus)
    → is_active node ≡ false
    → IsIdle nodes
    → IsIdle (put key node nodes)
put-IsIdle key node nodes idle h k =
    rw (get_or-put zero_node_status key k node nodes)
      (elim (Bool-cases (key_eq key k)) [ inl same ↦ rw same idle | inr other ↦ rw other (h k) ])

spec_nodes-IsIdle :
    (nodes : Dict String PlanNodeStatus) (specs : List PlanNodeSpec) (now : Time)
    → IsIdle nodes
    → IsIdle (spec_nodes nodes specs now)
unfolding spec_nodes
spec_nodes-IsIdle nodes [] now h = h
spec_nodes-IsIdle nodes (node ∷ rest) now h =
    spec_nodes-IsIdle (put node.node_id (pending_node node now) nodes) rest now
      (put-IsIdle node.node_id (pending_node node now) nodes refl h)

empty-IsIdle : IsIdle []
unfolding get_or
empty-IsIdle k = refl

none_active :
    (nodes : Dict String PlanNodeStatus)
    → IsIdle nodes
    → (ks : List String) → select is_active (map (read nodes) ks) ≡ []
none_active nodes h [] = refl
none_active nodes h (k ∷ ks) = rw (h k) (none_active nodes h ks)

-- What holds of every reached state.
pub record IsSound (spec : RunPlanSpec) (s : State) : Type 0 where
  pub node_map : IsNodeMap s.nodes
  pub projected : IsProjected s
  pub gated : IsGated s.status
  pub named : s.status.plan_id ≡ spec.plan_id

new_state-IsSound : (spec : RunPlanSpec) (now : Time) → IsSound spec (new_state spec now)
unfolding new_state
new_state-IsSound spec now = record {
  node_map = spec_nodes-IsNodeMap [] spec.nodes now (record { unique = tt; keyed = tt });
  projected = record {
    shown = refl;
    active = sym (
        unfold active_run_ids sorted_node_statuses in
        ap (map (λ node. node.run_id)) (
          none_active (spec_nodes [] spec.nodes now)
            (spec_nodes-IsIdle [] spec.nodes now empty-IsIdle)
            (sort_by str_leb (keys (spec_nodes [] spec.nodes now)))));
  };
  gated = ground arith;
  named = refl;
}

-- The states of a plan: accepted events only, since the workflow stops at a refused one.
pub data Reach (spec : RunPlanSpec) : State → Type 0 where
  begin : (now : Time) → Reach spec (new_state spec now)
  next :
      {s : State} (now : Time) (event : StateEvent)
      → Reach spec s
      → 0 < event_time now event
      → (apply now s event).1 ≡ none
      → Reach spec (apply now s event).0

-- In every state that a plan reaches by accepted events with set times, no node id stands twice in
-- the map and each entry holds the node of its key; the public status shows the map; the clock of
-- the approval timeout runs just while the plan is blocked, and only then is a gate pending; and the
-- plan id is that of the specification.
pub Reach-IsSound : {spec : RunPlanSpec} {s : State} → Reach spec s → IsSound spec s
Reach-IsSound {spec} (begin now) = new_state-IsSound spec now
Reach-IsSound {spec} (next {s} now event r t accepted) =
    let before = Reach-IsSound r in
    record {
      node_map = apply-IsNodeMap now s event before.node_map;
      projected = apply-IsProjected now s event accepted;
      gated = apply-IsGated now s event t before.gated;
      named = (apply-identity now s event).0 ∙ before.named;
    }

-- Every reached state of a plan whose id is set is restored from its public status, where the plan
-- lists the nodes of its map: the restored state has the same status and answers the same under
-- every node id.
pub Reach-restored :
    {spec : RunPlanSpec} {s : State} (listed : RunPlanSpec)
    → Reach spec s
    → is_empty spec.plan_id ≡ false
    → listed.plan_id ≡ spec.plan_id
    → Lists listed s.nodes
    → (t : State) × (new_state_from_status listed s.status ≡ ok t)
      × (t.status ≡ s.status)
      × ((k : String) → get k t.nodes ≡ get k s.nodes)
Reach-restored {spec} {s} listed r named same l =
    let sound = Reach-IsSound r in
    let (t, restored, status, nodes, fresh) =
      restore_round_trip listed s sound.node_map sound.projected (ap is_empty same ∙ named)
        (sound.named ∙ sym same) l in
    (t, restored, status, nodes)
