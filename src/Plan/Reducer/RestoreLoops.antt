-- ===== src/Plan/Reducer/RestoreLoops.antt =====
-- What the loops of `NewStateFromStatus` build from the lists that they read.
use mathlib.Core.List.{append_assoc, append-nil}
use go_agent.Prelude.{
  String, true, false, List, [], ◌∷◌, ◌++◌, map, ◌≡◌, refl, sym, ap, ◌∙◌, arith, string_key,
  key_iff, All, is_empty, ok,
}
use go_agent.Prelude.Dict.{Dict, keys, has}
use go_agent.Prelude.Members.{contains, Distinct, put_new, has-snoc}
use go_agent.Control.{PlanNodeSpec, PlanNodeStatus}
use go_agent.Plan.Reducer.Restore.{NodeSet, expected_plan_node_set, restore_loop, check_missing}
use go_agent.Plan.Reducer.Projection.{values}

abbrev pub ids : List PlanNodeStatus → List String
ids nodes = map (λ node. node.node_id) nodes

abbrev pub spec_ids : List PlanNodeSpec → List String
spec_ids nodes = map (λ node. node.node_id) nodes

-- The map that the loop builds from a list of nodes.
abbrev pub entries : List PlanNodeStatus → Dict String PlanNodeStatus
entries [] = []
entries (node ∷ nodes) = (node.node_id, node) ∷ entries nodes

pub keys-entries : (nodes : List PlanNodeStatus) → keys (entries nodes) ≡ ids nodes
keys-entries [] = refl
keys-entries (node ∷ nodes) = ap (λ l. node.node_id ∷ l) (keys-entries nodes)

pub values-entries : (nodes : List PlanNodeStatus) → values (entries nodes) ≡ nodes
values-entries [] = refl
values-entries (node ∷ nodes) = ap (λ l. node ∷ l) (values-entries nodes)

-- A node that the loop accepts.
abbrev pub Loadable : NodeSet → PlanNodeStatus → Type 0
Loadable expected node = (is_empty node.node_id ≡ false) × (has node.node_id expected ≡ true)

fresh_snoc :
    (node : PlanNodeStatus) (nodes : List PlanNodeStatus) (acc : Dict String PlanNodeStatus)
    → contains node.node_id (ids nodes) ≡ false
    → All (λ n. has n.node_id acc ≡ false) nodes
    → All (λ n. has n.node_id (acc ++ (node.node_id, node) ∷ []) ≡ false) nodes
unfolding contains
fresh_snoc node [] acc absent h = tt
fresh_snoc node (n ∷ nodes) acc absent h = (
  has-snoc n.node_id node.node_id node acc h.0
      (ground (arith, key_iff n.node_id node.node_id, key_iff node.node_id n.node_id)),
  fresh_snoc node nodes acc (ground arith) h.1,
)

pub restore_loop-entries :
    (expected : NodeSet) (nodes : List PlanNodeStatus) (acc : Dict String PlanNodeStatus)
    → All (Loadable expected) nodes
    → Distinct (ids nodes)
    → All (λ n. has n.node_id acc ≡ false) nodes
    → restore_loop acc expected nodes ≡ ok (acc ++ entries nodes)
unfolding restore_loop
restore_loop-entries expected [] acc load distinct fresh = ap ok (sym (append-nil acc))
restore_loop-entries expected (node ∷ nodes) acc load distinct fresh =
    let next = acc ++ (node.node_id, node) ∷ [] in
    rw (load.0.0, load.0.1, fresh.0, put_new node.node_id node acc fresh.0)
      (restore_loop-entries expected nodes next load.1 distinct.1
          (fresh_snoc node nodes acc distinct.0 fresh.1)
        ∙ ap ok (append_assoc acc ((node.node_id, node) ∷ []) (entries nodes)))

pub check_missing_lem :
    (node_ids : List String) (nodes : Dict String PlanNodeStatus)
    → All (λ k. has k nodes ≡ true) node_ids
    → check_missing node_ids nodes ≡ ok nodes
unfolding check_missing
check_missing_lem [] nodes h = refl
check_missing_lem (k ∷ ks) nodes h = rw h.0 (check_missing_lem ks nodes h.1)

-- The set that the plan expects.
abbrev pub id_set : List PlanNodeSpec → NodeSet
id_set [] = []
id_set (node ∷ nodes) = (node.node_id, tt) ∷ id_set nodes

pub keys-id_set : (nodes : List PlanNodeSpec) → keys (id_set nodes) ≡ spec_ids nodes
keys-id_set [] = refl
keys-id_set (node ∷ nodes) = ap (λ l. node.node_id ∷ l) (keys-id_set nodes)

expected_fresh :
    (node : PlanNodeSpec) (nodes : List PlanNodeSpec) (acc : NodeSet)
    → contains node.node_id (spec_ids nodes) ≡ false
    → All (λ n. has n.node_id acc ≡ false) nodes
    → All (λ n. has n.node_id (acc ++ (node.node_id, tt) ∷ []) ≡ false) nodes
unfolding contains
expected_fresh node [] acc absent h = tt
expected_fresh node (n ∷ nodes) acc absent h = (
  has-snoc n.node_id node.node_id tt acc h.0
      (ground (arith, key_iff n.node_id node.node_id, key_iff node.node_id n.node_id)),
  expected_fresh node nodes acc (ground arith) h.1,
)

pub expected_plan_node_set_lem :
    (nodes : List PlanNodeSpec) (acc : NodeSet)
    → All (λ n. is_empty n.node_id ≡ false) nodes
    → Distinct (spec_ids nodes)
    → All (λ n. has n.node_id acc ≡ false) nodes
    → expected_plan_node_set acc nodes ≡ ok (acc ++ id_set nodes)
unfolding expected_plan_node_set
expected_plan_node_set_lem [] acc named distinct fresh = ap ok (sym (append-nil acc))
expected_plan_node_set_lem (node ∷ nodes) acc named distinct fresh =
    rw (named.0, fresh.0, put_new node.node_id tt acc fresh.0)
      (expected_plan_node_set_lem nodes (acc ++ (node.node_id, tt) ∷ []) named.1 distinct.1
          (expected_fresh node nodes acc distinct.0 fresh.1)
        ∙ ap ok (append_assoc acc ((node.node_id, tt) ∷ []) (id_set nodes)))
