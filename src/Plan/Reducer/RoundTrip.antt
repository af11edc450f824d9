-- ===== src/Plan/Reducer/RoundTrip.antt =====
-- A state and the one that is restored from its public status.
use go_agent.Prelude.{
  pos, String, true, false, List, [], ◌∷◌, map, none, ◌≡◌, refl, sym, ap, ◌∙◌, subst, if◌then◌else◌,
  string_key, key_eq, key_iff, Bool-cases, inl, inr, All, All-map, is_empty, str_leb, str_leb_total,
  str_leb_trans, ok,
}
use go_agent.Prelude.Dict.{Dict, keys, get, get_or, has}
use go_agent.Prelude.Sort.{sort_by, IsSortedBy, sort_by-sorted, sort_by-All, sort_by-IsSortedBy}
use go_agent.Prelude.Members.{
  contains, Distinct, contains-sort_by, sort_by-Distinct, has-contains, HasUniqueKeys→Distinct,
  Distinct→HasUniqueKeys, get-get_or, get_absent, All-contains,
}
use go_agent.Control.{PlanNodeSpec, PlanNodeStatus, RunPlanSpec, RunPlanStatus, zero_node_status}
use go_agent.Plan.Reducer.State.{State, sorted_node_statuses, active_run_ids}
use go_agent.Plan.Reducer.Restore.{restore_plan_node_statuses, restore_nodes, new_state_from_status}
use go_agent.Plan.Reducer.NodeMap.{IsNodeMap}
use go_agent.Plan.Reducer.Projection.{IsProjected, read, keys-has, map-read, read-node_id}
use go_agent.Plan.Reducer.RestoreLoops.{
  ids, spec_ids, entries, keys-entries, values-entries, Loadable, restore_loop-entries,
  check_missing_lem, id_set, keys-id_set, expected_plan_node_set_lem,
}

-- The sorted keys of a map, and what is read under them.
abbrev sorted_keys : Dict String PlanNodeStatus → List String
sorted_keys nodes = sort_by str_leb (keys nodes)

ids-read :
    (nodes : Dict String PlanNodeStatus) (ks : List String)
    → All (λ k. (read nodes k).node_id ≡ k) ks
    → ids (map (read nodes) ks) ≡ ks
ids-read nodes [] h = refl
ids-read nodes (k ∷ ks) h = rw (h.0, ids-read nodes ks h.1) refl

module _ (nodes : Dict String PlanNodeStatus) (h : IsNodeMap nodes) where
  abbrev shown : List PlanNodeStatus
  shown = map (read nodes) (sorted_keys nodes)

  sorted_has : All (λ k. has k nodes ≡ true) (sorted_keys nodes)
  sorted_has = sort_by-All _ str_leb (keys nodes) (keys-has nodes)

  ids-shown : ids shown ≡ sorted_keys nodes
  ids-shown =
      ids-read nodes (sorted_keys nodes)
        (All-map _ _ (sorted_keys nodes) (read-node_id nodes h.keyed) sorted_has)

  ids-Distinct : Distinct (ids shown)
  ids-Distinct =
      subst Distinct (sym ids-shown)
        (sort_by-Distinct str_leb (keys nodes) (HasUniqueKeys→Distinct nodes h.unique))

  -- The map of the listed nodes shows as the same list.
  sorted_node_statuses-entries : sorted_node_statuses (entries shown) ≡ shown
  unfolding sorted_node_statuses
  sorted_node_statuses-entries =
      let sorted : sort_by str_leb (keys (entries shown)) ≡ keys (entries shown) =
        sort_by-sorted str_leb (keys (entries shown)) (
          subst (IsSortedBy str_leb) (sym (keys-entries shown ∙ ids-shown))
            (sort_by-IsSortedBy str_leb str_leb_total str_leb_trans (keys nodes))) in
      let unique =
        Distinct→HasUniqueKeys (entries shown)
          (subst Distinct (sym (keys-entries shown)) ids-Distinct) in
      ap (map (read (entries shown))) sorted
      ∙ map-read (entries shown) unique
      ∙ values-entries shown

  get-entries_of :
      (k : String) (ks : List String)
      → All (λ j. has j nodes ≡ true) ks
      → get k (entries (map (read nodes) ks)) ≡ (if contains k ks then get k nodes else none)
  unfolding get contains get_or
  get-entries_of k [] all = refl
  get-entries_of k (j ∷ js) all =
      let id : (read nodes j).node_id ≡ j = read-node_id nodes h.keyed j all.0 in
      rw id (elim (Bool-cases (key_eq j k)) [
        | inl same ↦ rw same (
            sym (get-get_or zero_node_status j nodes all.0)
            ∙ ap (λ i. get i nodes) ((key_iff j k).0 same))
        | inr other ↦ rw other (get-entries_of k js all.1)
      ])

  -- A read of the rebuilt map is a read of the map.
  get-entries : (k : String) → get k (entries shown) ≡ get k nodes
  get-entries k =
      let member : contains k (sorted_keys nodes) ≡ has k nodes =
        contains-sort_by k str_leb (keys nodes) ∙ sym (has-contains k nodes) in
      get-entries_of k (sorted_keys nodes) sorted_has
      ∙ rw member (elim (Bool-cases (has k nodes)) [
        | inl here ↦ rw here
        | inr gone ↦ rw gone (sym (get_absent k nodes gone))
      ])

-- A plan lists the nodes of a map: each id is set, none stands twice, and they are its keys.
pub record Lists (spec : RunPlanSpec) (nodes : Dict String PlanNodeStatus) : Type 0 where
  pub named : All (λ n. is_empty n.node_id ≡ false) spec.nodes
  pub distinct : Distinct (spec_ids spec.nodes)
  pub same : (k : String) → contains k (spec_ids spec.nodes) ≡ has k nodes

module _ (spec : RunPlanSpec) (nodes : Dict String PlanNodeStatus) (h : IsNodeMap nodes)
    (l : Lists spec nodes) where
  expected_has : (k : String) → has k nodes ≡ true → has k (id_set spec.nodes) ≡ true
  expected_has k here =
      has-contains k (id_set spec.nodes)
      ∙ ap (contains k) (keys-id_set spec.nodes)
      ∙ l.same k
      ∙ here

  id_named :
      (k : String) (ns : List PlanNodeSpec)
      → All (λ n. is_empty n.node_id ≡ false) ns
      → contains k (spec_ids ns) ≡ true
      → is_empty k ≡ false
  unfolding contains
  id_named k [] all here = cc
  id_named k (n ∷ ns) all here = elim (Bool-cases (key_eq n.node_id k)) [
    | inl same ↦ subst (λ i. is_empty i ≡ false) ((key_iff n.node_id k).0 same) all.0
    | inr other ↦ id_named k ns all.1 (rw other at here)
  ]

  shown-Loadable :
      (ks : List String)
      → All (λ k. has k nodes ≡ true) ks
      → All (Loadable (id_set spec.nodes)) (map (read nodes) ks)
  shown-Loadable [] all = tt
  shown-Loadable (k ∷ ks) all =
      let id : (read nodes k).node_id ≡ k = read-node_id nodes h.keyed k all.0 in
      (
        (
          ap is_empty id ∙ id_named k spec.nodes l.named (l.same k ∙ all.0),
          ap (λ i. has i (id_set spec.nodes)) id ∙ expected_has k all.0,
        ),
        shown-Loadable ks all.1,
      )

  All-fresh : (ns : List PlanNodeStatus) → All (λ n. has n.node_id (entries []) ≡ false) ns
  unfolding has
  All-fresh [] = tt
  All-fresh (n ∷ ns) = (refl, All-fresh ns)

  All-absent : (ns : List PlanNodeSpec) → All (λ n. has n.node_id (id_set []) ≡ false) ns
  unfolding has
  All-absent [] = tt
  All-absent (n ∷ ns) = (refl, All-absent ns)

  has-entries : (k : String) → has k (entries (shown nodes h)) ≡ has k nodes
  has-entries k =
      has-contains k (entries (shown nodes h))
      ∙ ap (contains k) (keys-entries (shown nodes h) ∙ ids-shown nodes h)
      ∙ contains-sort_by k str_leb (keys nodes)
      ∙ sym (has-contains k nodes)

  none_missing : All (λ k. has k (entries (shown nodes h)) ≡ true) (keys (id_set spec.nodes))
  none_missing = All-contains _ (keys (id_set spec.nodes)) λ k here.
      has-entries k
      ∙ sym (l.same k)
      ∙ subst (λ ks. contains k ks ≡ true) (keys-id_set spec.nodes) here

  restored_nodes :
      (status : RunPlanStatus)
      → status.nodes ≡ shown nodes h
      → restore_plan_node_statuses status (id_set spec.nodes) ≡ ok (entries (shown nodes h))
  unfolding restore_plan_node_statuses
  restored_nodes status e =
      rw
        (
          e,
          restore_loop-entries (id_set spec.nodes) (shown nodes h) []
              (shown-Loadable (sorted_keys nodes) (sorted_has nodes h)) (ids-Distinct nodes h)
              (All-fresh (shown nodes h)),
        )
        (check_missing_lem (keys (id_set spec.nodes)) (entries (shown nodes h)) none_missing)

  restore_nodes_lem :
      (status : RunPlanStatus)
      → status.nodes ≡ shown nodes h
      → status.active_run_ids ≡ active_run_ids status.nodes
      → restore_nodes spec status
        ≡ ok (record { status = status; nodes = entries (shown nodes h); transitions = pos 0 })
  unfolding restore_nodes
  restore_nodes_lem status e active =
      rw
        (
          expected_plan_node_set_lem spec.nodes [] l.named l.distinct (All-absent spec.nodes),
          restored_nodes status e,
        )
        (ap ok (λ i. record {
          status = record status {
            nodes = (sorted_node_statuses-entries nodes h ∙ sym e) i;
            active_run_ids =
                (ap active_run_ids (sorted_node_statuses-entries nodes h ∙ sym e) ∙ sym active) i;
          };
          nodes = entries (shown nodes h);
          transitions = pos 0;
        }))

-- What the reducer shows of a state is enough to restore it. Where the map of nodes is well formed,
-- the status shows it, and the plan has the id of the status and lists the nodes of the map, the
-- restore succeeds, with the same status, the same answer under every node id, and no transition.
pub restore_round_trip :
    (spec : RunPlanSpec) (s : State)
    → IsNodeMap s.nodes
    → IsProjected s
    → is_empty spec.plan_id ≡ false
    → s.status.plan_id ≡ spec.plan_id
    → Lists spec s.nodes
    → (t : State) × (new_state_from_status spec s.status ≡ ok t)
      × (t.status ≡ s.status)
      × ((k : String) → get k t.nodes ≡ get k s.nodes)
      × (t.transitions ≡ pos 0)
unfolding new_state_from_status sorted_node_statuses
restore_round_trip spec s h view named id l =
    let kept : is_empty s.status.plan_id ≡ false = ap is_empty id ∙ named in
    let same : key_eq s.status.plan_id spec.plan_id ≡ true =
      (key_iff s.status.plan_id spec.plan_id).1 id in
    (
      record { status = s.status; nodes = entries (shown s.nodes h); transitions = pos 0 },
      rw (named, kept, same) (restore_nodes_lem spec s.nodes h l s.status view.shown view.active),
      refl,
      get-entries s.nodes h,
      refl,
    )
