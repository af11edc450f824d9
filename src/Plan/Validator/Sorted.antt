-- ===== src/Plan/Validator/Sorted.antt =====
-- What `topoSort` starts its loop with, and the order that it returns.
use go_agent.Prelude.{
  ℕ, ◌+◌, ◌==◌, String, str_leb, true, List, [], ◌∷◌, ok, err, Error, ok_injective, string_key,
  key_eq, key_iff, ◌≡◌, refl, sym, ap, ◌∙◌, subst, arith, Bool-cases, inl, inr, length,
}
use go_agent.Prelude.Dict.{Dict, keys, get_or, put, has, HasUniqueKeys, put-HasUniqueKeys}
use go_agent.Prelude.Sort.{sort_by}
use go_agent.Prelude.Members.{contains, Distinct, contains-sort_by, sort_by-Distinct}
use go_agent.Control.{PlanNodeSpec, PlanEdgeSpec}
use go_agent.Plan.Validator.Order.{
  zero_counts, count_incoming, list_children, sort_children, roots, topo_order, topo_sort,
}
use go_agent.Plan.Validator.Counts.{
  occurrences, edges_to, edges_between, pending_edges, occurrences-sort_by, count_incoming-get_or,
  zero_counts-get_or, list_children-occurrences, sort_children-get_or,
}
use go_agent.Plan.Validator.Topological.{IsForward, Draining, drain_lem}

edges_to-pending_edges :
    (k : String) (edges : List PlanEdgeSpec) → edges_to k edges ≡ pending_edges [] k edges
unfolding pending_edges contains
edges_to-pending_edges k [] = refl
edges_to-pending_edges k (edge ∷ edges) = ground (arith, edges_to-pending_edges k edges)

zero_counts-HasUniqueKeys :
    (incoming : Dict String ℕ) (ids : List String)
    → HasUniqueKeys incoming
    → HasUniqueKeys (zero_counts incoming ids)
unfolding zero_counts
zero_counts-HasUniqueKeys incoming [] h = h
zero_counts-HasUniqueKeys incoming (id ∷ ids) h =
    zero_counts-HasUniqueKeys (put id 0 incoming) ids (put-HasUniqueKeys id 0 incoming h)

count_incoming-HasUniqueKeys :
    (incoming : Dict String ℕ) (edges : List PlanEdgeSpec)
    → HasUniqueKeys incoming
    → HasUniqueKeys (count_incoming incoming edges)
unfolding count_incoming
count_incoming-HasUniqueKeys incoming [] h = h
count_incoming-HasUniqueKeys incoming (edge ∷ edges) h =
    let more = get_or 0 edge.to incoming + 1 in
    count_incoming-HasUniqueKeys (put edge.to more incoming) edges
      (put-HasUniqueKeys edge.to more incoming h)

pub contains-roots :
    (k : String) (incoming : Dict String ℕ)
    → contains k (roots incoming) ≡ true
    → has k incoming ≡ true
unfolding contains roots has
contains-roots k [] h = cc
contains-roots k ((id, count) ∷ rest) h = ground (arith, contains-roots k rest)

roots-get_or :
    (k : String) (incoming : Dict String ℕ)
    → HasUniqueKeys incoming
    → contains k (roots incoming) ≡ true
    → get_or 0 k incoming ≡ 0
unfolding contains roots get_or has
roots-get_or k [] unique h = cc
roots-get_or k ((id, count) ∷ rest) unique h = elim (Bool-cases (key_eq id k)) [
  | inl same ↦ ground (arith, (key_iff id k).0 same, contains-roots k rest, unique.0)
  | inr other ↦ ground (arith, roots-get_or k rest unique.1)
]

roots-Distinct : (incoming : Dict String ℕ) → HasUniqueKeys incoming → Distinct (roots incoming)
unfolding roots
roots-Distinct [] unique = tt
roots-Distinct ((id, count) ∷ rest) unique = elim (Bool-cases (count == 0)) [
  | inl free ↦ rw free (
    elim (Bool-cases (contains id (roots rest))) [
      | inr absent ↦ absent
      | inl among ↦ ground (arith, contains-roots id rest among, unique.0)
    ],
    roots-Distinct rest unique.1,
  )
  | inr held ↦ rw held (roots-Distinct rest unique.1)
]

module _ (node_by_id : Dict String PlanNodeSpec) (edges : List PlanEdgeSpec) where
  abbrev pub first_counts : Dict String ℕ
  first_counts = count_incoming (zero_counts [] (keys node_by_id)) edges

  abbrev pub children_of : Dict String (List String)
  children_of = sort_children (list_children [] edges)

  pub children_of-occurrences :
      (f k : String) → occurrences k (get_or [] f children_of) ≡ edges_between f k edges
  unfolding get_or
  children_of-occurrences f k =
      ap (occurrences k) (sort_children-get_or f (list_children [] edges))
      ∙ occurrences-sort_by k str_leb (get_or [] f (list_children [] edges))
      ∙ list_children-occurrences f k [] edges
      ∙ omega arith

  first_unique : HasUniqueKeys first_counts
  first_unique =
      count_incoming-HasUniqueKeys (zero_counts [] (keys node_by_id)) edges
        (zero_counts-HasUniqueKeys [] (keys node_by_id) tt)

  first_pending : (k : String) → get_or 0 k first_counts ≡ pending_edges [] k edges
  unfolding get_or
  first_pending k = ground (
    arith,
    count_incoming-get_or k (zero_counts [] (keys node_by_id)) edges,
    zero_counts-get_or k [] (keys node_by_id) (λ j. refl),
    edges_to-pending_edges k edges,
  )

  pub first-Draining :
      Draining edges children_of children_of-occurrences first_counts
        (sort_by str_leb (roots first_counts))
        []
  unfolding contains
  first-Draining = record {
    counts = first_pending;
    queued = λ k among.
        sym (first_pending k)
        ∙ roots-get_or k first_counts first_unique
            (sym (contains-sort_by k str_leb (roots first_counts)) ∙ among);
    placed = λ k among. cc;
    apart = λ k among. cc;
    queue_distinct =
        sort_by-Distinct str_leb (roots first_counts) (roots-Distinct first_counts first_unique);
    order_distinct = tt;
  }

topo_refused : {e : Error} {order : List String} → err e ≡ ok order → ⊥
topo_refused h = cc

pub topo_sort-order :
    (node_by_id : Dict String PlanNodeSpec) (edges : List PlanEdgeSpec) {order : List String}
    → topo_sort node_by_id edges ≡ ok order
    → (topo_order node_by_id edges ≡ order) × (length order ≡ length node_by_id)
unfolding topo_sort
topo_sort-order node_by_id edges {order = order} h =
    let found = topo_order node_by_id edges in
    elim (Bool-cases (length found == length node_by_id)) [
      | inl enough ↦
          let same : found ≡ order = ok_injective found order (rw enough at h) in
          (same, ground (arith, enough, ap length same))
      | inr cyclic ↦ absurd (topo_refused (rw cyclic at h))
    ]

-- The order that the sort of a plan returns names no id twice, each edge of the plan into an id of
-- the order comes from an id that stands before it, and it has as many ids as the plan has nodes.
pub topo_sort_lem :
    (node_by_id : Dict String PlanNodeSpec) (edges : List PlanEdgeSpec) {order : List String}
    → topo_sort node_by_id edges ≡ ok order
    → IsForward edges [] order × Distinct order × (length order ≡ length node_by_id)
unfolding topo_order
topo_sort_lem node_by_id edges h =
    let (same, enough) = topo_sort-order node_by_id edges h in
    let (part, reached, forward, distinct) =
      drain_lem edges (children_of node_by_id edges) (children_of-occurrences node_by_id edges)
        (length node_by_id) (first_counts node_by_id edges)
        (sort_by str_leb (roots (first_counts node_by_id edges))) []
        (first-Draining node_by_id edges) in
    (subst (IsForward edges []) (sym reached ∙ same) forward, subst Distinct same distinct, enough)
