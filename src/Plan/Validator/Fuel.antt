-- ===== src/Plan/Validator/Fuel.antt =====
-- The number of turns of the loop of `topoSort` (internal/usecase/agentosplan/validator.go).
use go_agent.Prelude.{
  ℕ, zero, suc, ◌+◌, ◌≤◌, ◌==◌, String, str_leb, true, false, List, [], ◌∷◌, ◌++◌, string_key,
  key_iff, key_refl, ◌≡◌, refl, sym, ap, ◌∙◌, arith, Bool-cases, inl, inr, length, length-append,
  All, ◌||◌,
}
use go_agent.Prelude.Dict.{Dict, keys, get_or, put, has, has-put}
use go_agent.Prelude.Sort.{sort_by}
use go_agent.Prelude.Members.{contains, contains-sort_by, contains_snoc, Distinct-snoc}
use go_agent.Prelude.Pigeonhole.{length_le_of_Distinct}
use go_agent.Control.{PlanNodeSpec, PlanEdgeSpec}
use go_agent.Plan.Validator.Order.{zero_counts, count_incoming, roots, release, drain, topo_order}
use go_agent.Plan.Validator.Counts.{occurrences, edges_between}
use go_agent.Plan.Validator.Topological.{Draining, drain_step, current_new, released}
use go_agent.Plan.Validator.Sorted.{
  contains-roots, first_counts, children_of, children_of-occurrences, first-Draining,
}

-- Every edge leads to a known id.
abbrev pub LeadsTo : List String → List PlanEdgeSpec → Type 0
LeadsTo ids edges = All (λ (edge : PlanEdgeSpec). contains edge.to ids ≡ true) edges

-- The ids of a list are known.
abbrev pub Known : List String → List String → Type 0
Known ids xs = (k : String) → contains k xs ≡ true → contains k ids ≡ true

edges_between-known :
    (ids : List String) (f k : String) (edges : List PlanEdgeSpec)
    → LeadsTo ids edges
    → (edges_between f k edges == 0) ≡ false
    → contains k ids ≡ true
edges_between-known ids f k [] h some = cc
edges_between-known ids f k (edge ∷ edges) h some =
    ground (arith, edges_between-known ids f k edges h.1, h.0, key_iff edge.to k)

drain_empty :
    (fuel : ℕ) (children : Dict String (List String)) (incoming : Dict String ℕ)
    (order : List String)
    → drain fuel children incoming [] order ≡ order
unfolding drain
drain_empty zero children incoming order = refl
drain_empty (suc fuel) children incoming order = refl

module _ (ids : List String) (edges : List PlanEdgeSpec) (children : Dict String (List String))
    (kids : (f k : String) → occurrences k (get_or [] f children) ≡ edges_between f k edges)
    (leads : LeadsTo ids edges) where
  out-Known :
      (incoming : Dict String ℕ) (current : String) (queue order : List String)
      → Draining edges children kids incoming (current ∷ queue) order
      → Known ids queue
      → Known ids (release (get_or [] current children) incoming queue).1
  out-Known incoming current queue order h known k among =
      let step = released edges children kids incoming current queue order h in
      elim (Bool-cases (contains k queue)) [
        | inl before ↦ known k before
        | inr absent ↦ elim (Bool-cases (edges_between current k edges == 0)) [
          | inr some ↦ edges_between-known ids current k edges leads some
          | inl nothing ↦ ground (arith, step.origin k absent, kids current k, among)
        ]
      ]

  snoc-Known :
      (current : String) (order : List String)
      → contains current ids ≡ true
      → Known ids order
      → Known ids (order ++ current ∷ [])
  snoc-Known current order here known k among =
      ground (arith, contains_snoc k current order, known k, key_iff current k)

  drain-enough :
      (fuel more : ℕ) (incoming : Dict String ℕ) (queue order : List String)
      → Draining edges children kids incoming queue order
      → Known ids order
      → Known ids queue
      → fuel ≤ more
      → length ids ≤ length order + fuel
      → drain more children incoming queue order ≡ drain fuel children incoming queue order
  unfolding drain contains
  drain-enough fuel more incoming [] order h placed queued le enough =
      drain_empty more children incoming order ∙ sym (drain_empty fuel children incoming order)
  drain-enough zero more incoming (current ∷ queue) order h placed queued le enough =
      let here = queued current (rw (key_refl current) refl) in
      let new = current_new edges children kids incoming current queue order h in
      let bound =
        length_le_of_Distinct (order ++ current ∷ []) ids
          (Distinct-snoc current order new h.order_distinct)
          (snoc-Known current order here placed) in
      ground (arith, bound, length-append order (current ∷ []))
  drain-enough (suc fuel) zero incoming (current ∷ queue) order h placed queued le enough =
      absurd (omega arith)
  drain-enough (suc fuel) (suc more) incoming (current ∷ queue) order h placed queued le enough =
      let out = release (get_or [] current children) incoming queue in
      let here = queued current (rw (key_refl current) refl) in
      let tail : Known ids queue = λ k among. queued k (ground (arith, among)) in
      drain-enough fuel more out.0 out.1 (order ++ current ∷ [])
        (drain_step edges children kids incoming current queue order h)
        (snoc-Known current order here placed) (out-Known incoming current queue order h tail)
        (omega arith) (ground (arith, length-append order (current ∷ [])))

  drain-Known :
      (fuel : ℕ) (incoming : Dict String ℕ) (queue order : List String)
      → Draining edges children kids incoming queue order
      → Known ids order
      → Known ids queue
      → Known ids (drain fuel children incoming queue order)
  unfolding drain contains
  drain-Known zero incoming queue order h placed queued = placed
  drain-Known (suc fuel) incoming [] order h placed queued = placed
  drain-Known (suc fuel) incoming (current ∷ queue) order h placed queued =
      let out = release (get_or [] current children) incoming queue in
      let here = queued current (rw (key_refl current) refl) in
      drain-Known fuel out.0 out.1 (order ++ current ∷ [])
        (drain_step edges children kids incoming current queue order h)
        (snoc-Known current order here placed)
        (out-Known incoming current queue order h (λ k among. queued k (ground (arith, among))))

zero_counts-has :
    (k : String) (incoming : Dict String ℕ) (ids : List String)
    → has k (zero_counts incoming ids) ≡ true
    → (has k incoming || contains k ids) ≡ true
unfolding zero_counts contains
zero_counts-has k incoming [] h = ground arith
zero_counts-has k incoming (id ∷ ids) h =
    ground (arith, zero_counts-has k (put id 0 incoming) ids, has-put id k 0 incoming)

count_incoming-has :
    (k : String) (ids : List String) (incoming : Dict String ℕ) (edges : List PlanEdgeSpec)
    → LeadsTo ids edges
    → has k (count_incoming incoming edges) ≡ true
    → (has k incoming || contains k ids) ≡ true
unfolding count_incoming
count_incoming-has k ids incoming [] leads h = ground arith
count_incoming-has k ids incoming (edge ∷ edges) leads h =
    let more = get_or 0 edge.to incoming + 1 in
    ground (
      arith,
      count_incoming-has k ids (put edge.to more incoming) edges leads.1,
      has-put edge.to k more incoming,
      leads.0,
      key_iff edge.to k,
    )

length-keys : {V : Type 0} (d : Dict String V) → length (keys d) ≡ length d
length-keys [] = refl
length-keys ((k, v) ∷ d) = ap suc (length-keys d)

-- The ids that the loop starts with are nodes of the plan.
first-Known :
    (node_by_id : Dict String PlanNodeSpec) (edges : List PlanEdgeSpec)
    → LeadsTo (keys node_by_id) edges
    → Known (keys node_by_id) (sort_by str_leb (roots (first_counts node_by_id edges)))
unfolding has
first-Known node_by_id edges leads k among =
    let ids = keys node_by_id in
    let counts = first_counts node_by_id edges in
    let rooted = sym (contains-sort_by k str_leb (roots counts)) ∙ among in
    let counted =
      count_incoming-has k ids (zero_counts [] ids) edges leads (contains-roots k counts rooted) in
    ground (arith, counted, zero_counts-has k [] ids)

-- Where every edge leads to a node of the plan, as many turns of the loop as the plan has nodes are
-- enough: with any more turns the loop gives the same order.
pub topo_order-enough :
    (node_by_id : Dict String PlanNodeSpec) (edges : List PlanEdgeSpec) (turns : ℕ)
    → LeadsTo (keys node_by_id) edges
    → length node_by_id ≤ turns
    → drain turns
        (children_of node_by_id edges)
        (first_counts node_by_id edges)
        (sort_by str_leb (roots (first_counts node_by_id edges)))
        []
      ≡ topo_order node_by_id edges
unfolding topo_order contains
topo_order-enough node_by_id edges turns leads le =
    drain-enough (keys node_by_id) edges (children_of node_by_id edges)
      (children_of-occurrences node_by_id edges) leads (length node_by_id) turns
      (first_counts node_by_id edges) (sort_by str_leb (roots (first_counts node_by_id edges))) []
      (first-Draining node_by_id edges) (λ k among. cc) (first-Known node_by_id edges leads) le
      (ground (arith, length-keys node_by_id))

pub topo_order-Known :
    (node_by_id : Dict String PlanNodeSpec) (edges : List PlanEdgeSpec)
    → LeadsTo (keys node_by_id) edges
    → Known (keys node_by_id) (topo_order node_by_id edges)
unfolding topo_order contains
topo_order-Known node_by_id edges leads =
    drain-Known (keys node_by_id) edges (children_of node_by_id edges)
      (children_of-occurrences node_by_id edges) leads (length node_by_id)
      (first_counts node_by_id edges) (sort_by str_leb (roots (first_counts node_by_id edges))) []
      (first-Draining node_by_id edges) (λ k among. cc) (first-Known node_by_id edges leads)
