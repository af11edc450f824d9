-- ===== src/Plan/Reducer/Frame.antt =====
-- What an event may do to the map of nodes.
use go_agent.Prelude.{
  String, true, false, List, [], ◌∷◌, some, ◌≡◌, ◌≢◌, refl, sym, subst, ◌∙◌, arith, string_key,
  key_absent, key_iff, key_eq, Bool-cases, inl, inr, is_empty,
}
use go_agent.Prelude.Dict.{Dict, get, put, has, get-put, has-put, has-get}
use go_agent.Control.{Time, PlanNodeSpec, PlanNodeStatus}
use go_agent.Plan.Reducer.Events.{StateEvent, plan_expanded}
use go_agent.Plan.Reducer.State.{State, pending_node}
use go_agent.Plan.Reducer.Nodes.{add_nodes}
use go_agent.Plan.Reducer.Apply.{apply, apply_kind, event_time}
use go_agent.Plan.Reducer.NodeMap.{
  IsNodeMap, put-IsNodeMap, get-IsKeyed, apply_nodes_ind, expand_nodes,
}

-- What each written node keeps holds of the map that `add_nodes` leaves.
add_nodes_ind :
    (P : Dict String PlanNodeStatus → Type 0) (at : Time)
    → ((d : Dict String PlanNodeStatus) (node : PlanNodeSpec)
        → P d
        → has node.node_id d ≡ false
        → P (put node.node_id (pending_node node at) d))
    → (nodes : Dict String PlanNodeStatus) (new : List PlanNodeSpec) → P nodes
    → P (add_nodes nodes new at).0
unfolding add_nodes
add_nodes_ind P at step nodes [] h = h
add_nodes_ind P at step nodes (node ∷ rest) h = elim (Bool-cases (is_empty node.node_id)) [
  | inl empty ↦ rw empty h
  | inr named ↦ rw named (elim (Bool-cases (has node.node_id nodes)) [
    | inl old ↦ rw old h
    | inr new ↦ rw new (
        add_nodes_ind P at step (put node.node_id (pending_node node at) nodes) rest
          (step nodes node h new))
  ])
]

add_nodes-IsNodeMap :
    (nodes : Dict String PlanNodeStatus) (new : List PlanNodeSpec) (at : Time)
    → IsNodeMap nodes
    → IsNodeMap (add_nodes nodes new at).0
unfolding pending_node
add_nodes-IsNodeMap nodes new at =
    add_nodes_ind IsNodeMap at
      (λ d node h absent. put-IsNodeMap node.node_id (pending_node node at) d refl h) nodes new

-- After every event, accepted or refused, no key stands twice in the map of nodes, and each entry
-- holds the node of its key, if that was so before.
pub apply-IsNodeMap :
    (now : Time) (s : State) (event : StateEvent)
    → IsNodeMap s.nodes
    → IsNodeMap (apply now s event).0.nodes
apply-IsNodeMap now s event h =
    apply_nodes_ind {now = now} {s = s} {event = event} {P = IsNodeMap} (record {
      before = h;
      write = λ change same node found.
          put-IsNodeMap event.node_id (change node) s.nodes
            (same node ∙ get-IsKeyed event.node_id s.nodes h.keyed found) h;
      grow = λ e. add_nodes-IsNodeMap s.nodes event.expansion.nodes (event_time now event) h;
    })

-- An event other than an expansion leaves the status of each node that it does not name as it was.
pub apply_frame :
    (now : Time) (s : State) (event : StateEvent) (other : String)
    → event.kind ≢ plan_expanded
    → event.node_id ≢ other
    → get other (apply now s event).0.nodes ≡ get other s.nodes
apply_frame now s event other kind ne =
    apply_nodes_ind {now = now} {s = s} {event = event}
      {P = λ nodes. get other nodes ≡ get other s.nodes}
      (record {
        before = refl;
        write = λ change same node found.
            rw
              (get-put event.node_id other (change node) s.nodes, key_absent event.node_id other ne)
              refl;
        grow = λ e. absurd (kind e);
      })

-- A key that is absent is none that is there.
has_differ :
    (d : Dict String PlanNodeStatus) (j k : String) {node : PlanNodeStatus}
    → has j d ≡ false
    → get k d ≡ some node
    → j ≢ k
has_differ d j k {node} absent found e =
    let here : get j d ≡ some node = subst (λ i. get i d ≡ some node) (sym e) found in
    ground (arith, has-get j d)

-- An expansion, accepted or refused half way, leaves the status of every node that was there.
pub expansion_frame :
    (now : Time) (s : State) (event : StateEvent) (old : String) {node : PlanNodeStatus}
    → event.kind ≡ plan_expanded
    → get old s.nodes ≡ some node
    → get old (apply now s event).0.nodes ≡ some node
unfolding apply
expansion_frame now s event old {node} kind found =
    subst (λ k. get old (apply_kind k s event (event_time now event)).0.nodes ≡ some node)
      (sym kind)
      (expand_nodes (λ d. get old d ≡ some node) s event.expansion (event_time now event) found
        (add_nodes_ind (λ d. get old d ≡ some node) (event_time now event) kept s.nodes
          event.expansion.nodes found))
  where
    kept :
        (d : Dict String PlanNodeStatus) (new : PlanNodeSpec)
        → get old d ≡ some node
        → has new.node_id d ≡ false
        → get old (put new.node_id (pending_node new (event_time now event)) d) ≡ some node
    kept d new h absent =
        rw (get-put new.node_id old (pending_node new (event_time now event)) d)
          (elim (Bool-cases (key_eq new.node_id old)) [
            | inl same ↦
                absurd (has_differ d new.node_id old absent h ((key_iff new.node_id old).0 same))
            | inr other ↦ rw other h
          ])

-- No event removes a node.
pub apply-has :
    (now : Time) (s : State) (event : StateEvent) (key : String)
    → has key s.nodes ≡ true
    → has key (apply now s event).0.nodes ≡ true
apply-has now s event key h =
    apply_nodes_ind {now = now} {s = s} {event = event} {P = λ d. has key d ≡ true} (record {
      before = h;
      write = λ change same node found. has-put_kept event.node_id key (change node) s.nodes h;
      grow = λ e.
          add_nodes_ind (λ d. has key d ≡ true) (event_time now event)
            (λ d new held absent.
              has-put_kept new.node_id key (pending_node new (event_time now event)) d held)
            s.nodes event.expansion.nodes h;
    })
  where
    has-put_kept :
        (k j : String) (v : PlanNodeStatus) (d : Dict String PlanNodeStatus)
        → has j d ≡ true
        → has j (put k v d) ≡ true
    has-put_kept k j v d held = ground (arith, has-put k j v d)
