-- ===== src/Plan/Validator/Counts.antt =====
-- What the maps of `topoSort` hold: the number of edges into a node, and the nodes that edges lead
-- to.
use go_agent.Prelude.{
  ℕ, suc, ◌+◌, ◌<◌, String, str_leb, Bool, true, false, List, [], ◌∷◌, ◌++◌, if◌then◌else◌,
  string_key, key_eq, key_iff, ◌≡◌, refl, arith,
}
use go_agent.Prelude.Dict.{Dict, get_or, put, get_or-put}
use go_agent.Prelude.Sort.{sort_by, insert_by}
use go_agent.Prelude.Members.{contains, contains_snoc}
use go_agent.Control.{PlanEdgeSpec}
use go_agent.Plan.Validator.Order.{zero_counts, count_incoming, list_children, sort_children}

abbrev pub occurrences : String → List String → ℕ
occurrences k [] = 0
occurrences k (x ∷ xs) = if key_eq x k then suc (occurrences k xs) else occurrences k xs

-- The edges into a node.
abbrev pub edges_to : String → List PlanEdgeSpec → ℕ
edges_to k [] = 0
edges_to k (edge ∷ edges) = if key_eq edge.to k then suc (edges_to k edges) else edges_to k edges

-- The edges from one node to another.
abbrev pub edges_between : String → String → List PlanEdgeSpec → ℕ
edges_between f k [] = 0
edges_between f k (edge ∷ edges) =
    if key_eq edge.to k
    then if key_eq edge.from f then suc (edges_between f k edges) else edges_between f k edges
    else edges_between f k edges

-- The edges into a node from nodes that are not in the order.
unfoldable pub pending_edges : List String → String → List PlanEdgeSpec → ℕ
pending_edges order k [] = 0
pending_edges order k (edge ∷ edges) =
    if key_eq edge.to k
    then if contains edge.from order
      then pending_edges order k edges
      else suc (pending_edges order k edges)
    else pending_edges order k edges

pub occurrences-append :
    (k : String) (xs ys : List String)
    → occurrences k (xs ++ ys) ≡ occurrences k xs + occurrences k ys
occurrences-append k [] ys = omega arith
occurrences-append k (x ∷ xs) ys = ground (arith, occurrences-append k xs ys)

occurrences-insert_by :
    (k : String) (le : String → String → Bool) (x : String) (xs : List String)
    → occurrences k (insert_by le x xs) ≡ occurrences k (x ∷ xs)
unfolding insert_by
occurrences-insert_by k le x [] = refl
occurrences-insert_by k le x (y ∷ ys) = ground (arith, occurrences-insert_by k le x ys)

pub occurrences-sort_by :
    (k : String) (le : String → String → Bool) (xs : List String)
    → occurrences k (sort_by le xs) ≡ occurrences k xs
unfolding sort_by
occurrences-sort_by k le [] = refl
occurrences-sort_by k le (x ∷ xs) =
    ground (arith, occurrences-insert_by k le x (sort_by le xs), occurrences-sort_by k le xs)

pub contains-occurrences :
    (k : String) (xs : List String) → contains k xs ≡ true → 0 < occurrences k xs
unfolding contains
contains-occurrences k [] h = cc
contains-occurrences k (x ∷ xs) h = ground (arith, contains-occurrences k xs)

pub count_incoming-get_or :
    (k : String) (incoming : Dict String ℕ) (edges : List PlanEdgeSpec)
    → get_or 0 k (count_incoming incoming edges) ≡ get_or 0 k incoming + edges_to k edges
unfolding count_incoming
count_incoming-get_or k incoming [] = omega arith
count_incoming-get_or k incoming (edge ∷ edges) =
    let next = put edge.to (get_or 0 edge.to incoming + 1) incoming in
    ground (
      arith,
      count_incoming-get_or k next edges,
      get_or-put 0 edge.to k (get_or 0 edge.to incoming + 1) incoming,
      key_iff edge.to k,
    )

pub zero_counts-get_or :
    (k : String) (incoming : Dict String ℕ) (ids : List String)
    → ((j : String) → get_or 0 j incoming ≡ 0)
    → get_or 0 k (zero_counts incoming ids) ≡ 0
unfolding zero_counts
zero_counts-get_or k incoming [] h = h k
zero_counts-get_or k incoming (id ∷ ids) h =
    zero_counts-get_or k (put id 0 incoming) ids
      (λ j. ground (arith, get_or-put 0 id j 0 incoming, h j))

pub list_children-occurrences :
    (f k : String) (children : Dict String (List String)) (edges : List PlanEdgeSpec)
    → occurrences k (get_or [] f (list_children children edges))
      ≡ occurrences k (get_or [] f children) + edges_between f k edges
unfolding list_children
list_children-occurrences f k children [] = omega arith
list_children-occurrences f k children (edge ∷ edges) =
    let more = get_or [] edge.from children ++ edge.to ∷ [] in
    ground (
      arith,
      list_children-occurrences f k (put edge.from more children) edges,
      get_or-put [] edge.from f more children,
      key_iff edge.from f,
      occurrences-append k (get_or [] edge.from children) (edge.to ∷ []),
    )

pub sort_children-get_or :
    (f : String) (children : Dict String (List String))
    → get_or [] f (sort_children children) ≡ sort_by str_leb (get_or [] f children)
unfolding sort_children get_or sort_by
sort_children-get_or f [] = refl
sort_children-get_or f ((id, ids) ∷ rest) = ground (arith, sort_children-get_or f rest)

-- A new id in the order takes off the edges from it.
pub pending_edges_snoc :
    (order : List String) (current k : String) (edges : List PlanEdgeSpec)
    → contains current order ≡ false
    → pending_edges (order ++ current ∷ []) k edges + edges_between current k edges
      ≡ pending_edges order k edges
unfolding pending_edges
pending_edges_snoc order current k [] new = refl
pending_edges_snoc order current k (edge ∷ edges) new = ground (
  arith,
  pending_edges_snoc order current k edges new,
  contains_snoc edge.from current order,
  key_iff current edge.from,
  key_iff edge.from current,
)
