-- ===== src/Plan/Reducer/Projection.antt =====
-- The public status as a projection of the map of nodes.
use mathlib.Core.List.Perm
use mathlib.Core.List.{Perm}
use go_agent.Prelude.{
  String, Bool, true, false, List, [], ◌∷◌, map, Option, none, some, Error, ◌≡◌, refl, sym, ◌∙◌,
  arith, string_key, key_eq, key_iff, key_refl, Bool-cases, inl, inr, All, All-map, str_leb,
  str_leb_total, str_leb_trans, subst, ltb_ℤ, pos, key_absent,
}
use go_agent.Prelude.Dict.{Dict, keys, get_or, has, HasUniqueKeys}
use go_agent.Prelude.Sort.{sort_by, IsSortedBy, sort_by-perm, sort_by-All, sort_by-IsSortedBy}
use go_agent.Control.{Time, PlanNodeStatus, zero_node_status}
use go_agent.Plan.Reducer.Events.{StateEvent}
use go_agent.Plan.Reducer.State.{State, sorted_node_statuses, active_run_ids}
use go_agent.Plan.Reducer.Nodes.{
  and_then, is_delta_empty, expand, report_budget, transition_node, retry_node, touch_node,
  publish_artifacts,
}
use go_agent.Plan.Reducer.Apply.{apply, plan_transition}
use go_agent.Plan.Reducer.Cases.{apply_cases}
use go_agent.Plan.Reducer.NodeMap.{IsKeyed, IsNodeMap}
use go_agent.Plan.Reducer.Frame.{apply-IsNodeMap}

abbrev pub values : Dict String PlanNodeStatus → List PlanNodeStatus
values [] = []
values ((key, node) ∷ nodes) = node ∷ values nodes

abbrev pub by_node_id : PlanNodeStatus → PlanNodeStatus → Bool
by_node_id a b = str_leb a.node_id b.node_id

abbrev pub read : Dict String PlanNodeStatus → String → PlanNodeStatus
read nodes key = get_or zero_node_status key nodes

-- A read under an entry's key, for a key that the first entry does not have.
read_rest :
    (key : String) (node : PlanNodeStatus) (nodes : Dict String PlanNodeStatus) (ks : List String)
    → All (λ k. has k nodes ≡ true) ks
    → has key nodes ≡ false
    → map (read ((key, node) ∷ nodes)) ks ≡ map (read nodes) ks
unfolding get_or
read_rest key node nodes [] h absent = refl
read_rest key node nodes (k ∷ ks) h absent =
    let rest = read_rest key node nodes ks h.1 absent in
    let differ : key_eq key k ≡ false =
      key_absent key k (λ e. cc (subst (λ j. has j nodes ≡ false) e absent, h.0)) in
    rw (differ, rest) refl

pub keys-has : (nodes : Dict String PlanNodeStatus) → All (λ k. has k nodes ≡ true) (keys nodes)
unfolding has
keys-has [] = tt
keys-has ((key, node) ∷ nodes) =
    (rw (key_refl key) refl, All-map _ _ (keys nodes) (λ k h. ground arith) (keys-has nodes))

pub map-read :
    (nodes : Dict String PlanNodeStatus)
    → HasUniqueKeys nodes
    → map (read nodes) (keys nodes) ≡ values nodes
unfolding get_or
map-read [] h = refl
map-read ((key, node) ∷ nodes) h =
    rw
      (key_refl key, read_rest key node nodes (keys nodes) (keys-has nodes) h.0, map-read nodes h.1)
      refl

pub sorted_node_statuses-perm :
    (nodes : Dict String PlanNodeStatus)
    → HasUniqueKeys nodes
    → Perm (sorted_node_statuses nodes) (values nodes)
unfolding sorted_node_statuses
sorted_node_statuses-perm nodes h =
    subst (Perm (map (read nodes) (sort_by str_leb (keys nodes)))) (map-read nodes h)
      (Perm.map (read nodes) (sort_by-perm str_leb (keys nodes)))

pub read-node_id :
    (nodes : Dict String PlanNodeStatus)
    → IsKeyed nodes
    → (k : String) → has k nodes ≡ true
    → (read nodes k).node_id ≡ k
unfolding get_or has
read-node_id [] keyed k h = cc
read-node_id ((key, node) ∷ nodes) keyed k h = elim (Bool-cases (key_eq key k)) [
  | inl here ↦ rw here (keyed.0 ∙ (key_iff key k).0 here)
  | inr later ↦ rw later (read-node_id nodes keyed.1 k (rw later at h))
]

-- A map that keeps the keys as ids keeps the order.
map-IsSortedBy :
    (f : String → PlanNodeStatus) (ks : List String)
    → All (λ k. (f k).node_id ≡ k) ks
    → IsSortedBy str_leb ks
    → IsSortedBy by_node_id (map f ks)
map-IsSortedBy f [] ids h = tt
map-IsSortedBy f (k ∷ ks) ids h = (go ks ids.1 h.0, map-IsSortedBy f ks ids.1 h.1)
  where
    go :
        (js : List String)
        → All (λ j. (f j).node_id ≡ j) js
        → All (λ j. str_leb k j ≡ true) js
        → All (λ n. by_node_id (f k) n ≡ true) (map f js)
    go [] same le = tt
    go (j ∷ js) same le = (rw (ids.0, same.0) le.0, go js same.1 le.1)

pub sorted_node_statuses-IsSortedBy :
    (nodes : Dict String PlanNodeStatus)
    → IsKeyed nodes
    → IsSortedBy by_node_id (sorted_node_statuses nodes)
unfolding sorted_node_statuses
sorted_node_statuses-IsSortedBy nodes keyed =
    map-IsSortedBy (read nodes) (sort_by str_leb (keys nodes))
      (sort_by-All _ str_leb (keys nodes)
        (All-map _ _ (keys nodes) (read-node_id nodes keyed) (keys-has nodes)))
      (sort_by-IsSortedBy str_leb str_leb_total str_leb_trans (keys nodes))

-- The public status shows the map of nodes.
pub record IsProjected (s : State) : Type 0 where
  pub shown : s.status.nodes ≡ sorted_node_statuses s.nodes
  pub active : s.status.active_run_ids ≡ active_run_ids s.status.nodes

abbrev IfAccepted : (State → Type 0) → State × Option Error → Type 0
IfAccepted P r = r.1 ≡ none → P r.0

and_then-accepted :
    (P : State → Type 0) (r : State × Option Error) (f : State → State)
    → ((t : State) → P (f t))
    → IfAccepted P (and_then r f)
and_then-accepted P (t, none) f h = λ e. h t
and_then-accepted P (t, some x) f h = λ e. cc

pub apply-IsProjected :
    (now : Time) (s : State) (event : StateEvent)
    → (apply now s event).1 ≡ none
    → IsProjected (apply now s event).0
unfolding transition_node retry_node touch_node publish_artifacts plan_transition report_budget
    expand
apply-IsProjected now s event = apply_cases now s event (IfAccepted IsProjected) (record {
  on_expansion = λ e. elim (Bool-cases (is_delta_empty event.expansion)) [
    | inl empty ↦ rw (empty, expand) (λ a. cc)
    | inr full ↦
        rw (full, expand)
          (and_then-accepted IsProjected _ _ (λ t. record { shown = refl; active = refl }))
  ];
  on_plan = λ lifecycle e a. record { shown = refl; active = refl };
  on_node = λ lifecycle e.
      and_then-accepted IsProjected _ _ (λ t. record { shown = refl; active = refl });
  on_retry = and_then-accepted IsProjected _ _ (λ t. record { shown = refl; active = refl });
  on_touch = and_then-accepted IsProjected _ _ (λ t. record { shown = refl; active = refl });
  on_artifacts = and_then-accepted IsProjected _ _ (λ t. record { shown = refl; active = refl });
  on_budget = elim (Bool-cases (ltb_ℤ event.budget_delta.spent_cents (pos 0))) [
    | inl negative ↦ rw (negative, report_budget) (λ a. cc)
    | inr fits ↦
        rw (fits, report_budget)
          (and_then-accepted IsProjected _ _ (λ t. record { shown = refl; active = refl }))
  ];
  on_unknown = λ e a. cc;
})

-- After every accepted event the node list of the public status holds exactly the nodes of the map,
-- in the order of their ids, and the active run ids are the run ids of its running nodes that have
-- one, in that order.
pub apply_projection :
    (now : Time) (s : State) (event : StateEvent)
    → IsNodeMap s.nodes
    → (apply now s event).1 ≡ none
    → let t = (apply now s event).0 in
      Perm t.status.nodes (values t.nodes)
      × IsSortedBy by_node_id t.status.nodes
      × (t.status.active_run_ids ≡ active_run_ids t.status.nodes)
apply_projection now s event h accepted =
    let t = (apply now s event).0 in
    let map : IsNodeMap t.nodes = apply-IsNodeMap now s event h in
    let view : IsProjected t = apply-IsProjected now s event accepted in
    (
      subst (λ l. Perm l (values t.nodes)) (sym view.shown)
          (sorted_node_statuses-perm t.nodes map.unique),
      subst (IsSortedBy by_node_id) (sym view.shown)
          (sorted_node_statuses-IsSortedBy t.nodes map.keyed),
      view.active,
    )
