-- ===== src/Plan/Reducer/NodeMap.antt =====
-- The map of nodes under every event: its keys, and the nodes that an event does not name.
use go_agent.Prelude.{
  String, [], ◌∷◌, Option, none, some, Error, ◌≡◌, refl, sym, ◌∙◌, arith, string_key, key_iff,
  key_eq, Bool-cases, inl, inr, subst, is_empty, ltb_ℤ, pos,
}
use go_agent.Prelude.Dict.{Dict, get, put, HasUniqueKeys, put-HasUniqueKeys}
use go_agent.Control.{Time, PlanDeltaSpec, PlanNodeStatus, NodeLifecycle}
use go_agent.Plan.Reducer.Events.{StateEvent, plan_expanded}
use go_agent.Plan.Reducer.State.{State, settle}
use go_agent.Plan.Reducer.Nodes.{
  update_node, update_if_named, moved_node, add_nodes, expand, report_budget, and_then,
  transition_node, retry_node, touch_node, publish_artifacts, is_delta_empty, stale_gate,
}
use go_agent.Plan.Reducer.Apply.{apply, event_time, plan_transition}
use go_agent.Plan.Reducer.Cases.{apply_cases}

-- Every entry holds the node of its key.
abbrev pub IsKeyed : Dict String PlanNodeStatus → Type 0
IsKeyed [] = Unit
IsKeyed ((key, node) ∷ nodes) = (node.node_id ≡ key) × IsKeyed nodes

pub put-IsKeyed :
    (key : String) (node : PlanNodeStatus) (nodes : Dict String PlanNodeStatus)
    → node.node_id ≡ key
    → IsKeyed nodes
    → IsKeyed (put key node nodes)
unfolding put
put-IsKeyed key node [] e h = (e, tt)
put-IsKeyed key node ((k, n) ∷ nodes) e h = elim (Bool-cases (key_eq k key)) [
  | inl same ↦ rw same (e ∙ sym ((key_iff k key).0 same), h.1)
  | inr other ↦ rw other (h.0, put-IsKeyed key node nodes e h.1)
]

pub get-IsKeyed :
    (key : String) (nodes : Dict String PlanNodeStatus) {node : PlanNodeStatus}
    → IsKeyed nodes
    → get key nodes ≡ some node
    → node.node_id ≡ key
unfolding get
get-IsKeyed key [] h e = cc
get-IsKeyed key ((k, n) ∷ nodes) {node} h e = elim (Bool-cases (key_eq k key)) [
  | inl same ↦ let found : some n ≡ some node = rw same at e in cc (h.0, (key_iff k key).0 same)
  | inr other ↦ get-IsKeyed key nodes h.1 (rw other at e)
]

-- A map of nodes as the reducer keeps it.
pub record IsNodeMap (nodes : Dict String PlanNodeStatus) : Type 0 where
  pub unique : HasUniqueKeys nodes
  pub keyed : IsKeyed nodes

pub put-IsNodeMap :
    (key : String) (node : PlanNodeStatus) (nodes : Dict String PlanNodeStatus)
    → node.node_id ≡ key
    → IsNodeMap nodes
    → IsNodeMap (put key node nodes)
put-IsNodeMap key node nodes e h = record {
  unique = put-HasUniqueKeys key node nodes h.unique;
  keyed = put-IsKeyed key node nodes e h.keyed;
}

-- A change that keeps the id of a node.
abbrev pub KeepsId : (PlanNodeStatus → PlanNodeStatus) → Type 0
KeepsId change = (node : PlanNodeStatus) → (change node).node_id ≡ node.node_id

moved_node-KeepsId :
    (lifecycle : NodeLifecycle) (event : StateEvent) (at : Time)
    → KeepsId (moved_node lifecycle event at)
unfolding moved_node
moved_node-KeepsId lifecycle event at node = ground arith

-- What to show of a property of the map: that it holds before the event, behind a write that
-- keeps the id of the node of the event, and behind an expansion.
pub record NodeRule (now : Time) (s : State) (event : StateEvent)
    (P : Dict String PlanNodeStatus → Type 0) : Type 0 where
  pub before : P s.nodes
  pub write :
      (change : PlanNodeStatus → PlanNodeStatus)
      → KeepsId change
      → (node : PlanNodeStatus) → get event.node_id s.nodes ≡ some node
      → P (put event.node_id (change node) s.nodes)
  pub grow :
      event.kind ≡ plan_expanded
      → P (add_nodes s.nodes event.expansion.nodes (event_time now event)).0

-- An expansion leaves the map as it was, or as `add_nodes` leaves it.
pub expand_nodes :
    (P : Dict String PlanNodeStatus → Type 0) (s : State) (delta : PlanDeltaSpec) (at : Time)
    → P s.nodes
    → P (add_nodes s.nodes delta.nodes at).0
    → P (expand s delta at).0.nodes
unfolding expand
expand_nodes P s delta at before grown = elim (Bool-cases (is_delta_empty delta)) [
  | inl empty ↦ rw (empty, expand) before
  | inr full ↦ rw (full, expand) (go (add_nodes s.nodes delta.nodes at) grown)
]
  where
    go :
        (r : Dict String PlanNodeStatus × Option Error)
        → P r.0
        → P
            (and_then
              (record s { nodes = r.0 }, r.1)
              (λ t.
                settle
                  (record t {
                    status = record t.status { approval = stale_gate t.status.approval };
                  })
                  at)).0.nodes
    go (d, none) h = h
    go (d, some e) h = h

module _ {now : Time} {s : State} {event : StateEvent} {P : Dict String PlanNodeStatus → Type 0}
    (rule : NodeRule now s event P) where
  abbrev Holds : State × Option Error → Type 0
  Holds r = P r.0.nodes

  and_then_ind :
      (r : State × Option Error) (f : State → State)
      → ((t : State) → (f t).nodes ≡ t.nodes)
      → Holds r
      → Holds (and_then r f)
  and_then_ind (t, none) f same h = subst P (sym (same t)) h
  and_then_ind (t, some e) f same h = h

  update_node_ind :
      (change : PlanNodeStatus → PlanNodeStatus)
      → KeepsId change
      → Holds (update_node s event.node_id change)
  unfolding update_node
  update_node_ind change same = go (get event.node_id s.nodes) refl
    where
      go :
          (found : Option PlanNodeStatus)
          → get event.node_id s.nodes ≡ found
          → Holds (update_node s event.node_id change)
      go none e = rw (e, update_node) rule.before
      go (some node) e = rw (e, update_node) (rule.write change same node e)

  update_if_named_ind :
      (change : PlanNodeStatus → PlanNodeStatus)
      → KeepsId change
      → Holds (update_if_named s event.node_id change)
  unfolding update_if_named
  update_if_named_ind change same = elim (Bool-cases (is_empty event.node_id)) [
    | inl unnamed ↦ rw (unnamed, update_if_named) rule.before
    | inr named ↦ rw (named, update_if_named) (update_node_ind change same)
  ]

  report_budget_ind : Holds (report_budget s event (event_time now event))
  unfolding report_budget
  report_budget_ind = elim (Bool-cases (ltb_ℤ event.budget_delta.spent_cents (pos 0))) [
    | inl negative ↦ rw (negative, report_budget) rule.before
    | inr fits ↦
        rw (fits, report_budget)
          (and_then_ind _ _ (λ t. refl) (update_if_named_ind _ (λ node. refl)))
  ]

  pub apply_nodes_ind : P (apply now s event).0.nodes
  unfolding transition_node retry_node touch_node publish_artifacts plan_transition
  apply_nodes_ind = apply_cases now s event Holds (record {
    on_expansion =
        λ e. expand_nodes P s event.expansion (event_time now event) rule.before (rule.grow e);
    on_plan = λ lifecycle e. rule.before;
    on_node = λ lifecycle e.
        and_then_ind _ _ (λ t. refl)
          (update_node_ind _ (moved_node-KeepsId lifecycle event (event_time now event)));
    on_retry = and_then_ind _ _ (λ t. refl) (update_node_ind _ (λ node. refl));
    on_touch = and_then_ind _ _ (λ t. refl) (update_if_named_ind _ (λ node. refl));
    on_artifacts = and_then_ind _ _ (λ t. refl) (update_if_named_ind _ (λ node. refl));
    on_budget = report_budget_ind;
    on_unknown = λ e. rule.before;
  })
