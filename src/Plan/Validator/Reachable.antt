-- ===== src/Plan/Validator/Reachable.antt =====
-- The search of `hasDependencyPath` and chains of edges (internal/usecase/agentosplan/validator.go).
use go_agent.Prelude.{
  ℕ, zero, suc, ◌+◌, ◌≤◌, String, true, false, ◌||◌, List, [], ◌∷◌, ◌++◌, map, string_key, key_eq,
  key_iff, key_refl, ◌≡◌, refl, sym, ap, ◌∙◌, subst, arith, length, length-append, Bool-cases, inl,
  inr, ◌⊎◌,
}
use go_agent.Prelude.Dict.{Dict, keys, get_or, put, has, HasUniqueKeys}
use go_agent.Prelude.Members.{contains, has-contains, HasUniqueKeys→Distinct}
use go_agent.Prelude.Pigeonhole.{length_le_of_Distinct}
use go_agent.Control.{PlanEdgeSpec}
use go_agent.Plan.Validator.Edges.{IdSet}
use go_agent.Plan.Validator.Paths.{visit, search_path, edge_total, has_dependency_path}
use go_agent.Plan.Validator.Search.{points, Leads, visit-found, visit-Visited}

length-keys : (visited : IdSet) → length (keys visited) ≡ length visited
length-keys [] = refl
length-keys ((k, v) ∷ visited) = ap suc (length-keys visited)

module _ (edges : Dict String (List PlanEdgeSpec)) (from goal : String) where
  extend :
      (a c : String)
      → (a ≡ from) ⊎ Leads edges from a
      → points c (get_or [] a edges) ≡ true
      → Leads edges from c
  extend a c (inl here) step =
      Leads.one c (subst (λ b. points c (get_or [] b edges) ≡ true) here step)
  extend a c (inr chain) step = Leads.more a c chain step

  search_path_sound :
      (fuel : ℕ) (visited : IdSet) (queue : List String)
      → ((k : String) → contains k queue ≡ true → (k ≡ from) ⊎ Leads edges from k)
      → search_path fuel edges goal visited queue ≡ true
      → Leads edges from goal
  unfolding search_path contains
  search_path_sound zero visited queue reached h = cc
  search_path_sound (suc fuel) visited [] reached h = cc
  search_path_sound (suc fuel) visited (current ∷ queue) reached h =
      let here = reached current (rw (key_refl current) refl) in
      let out = visit goal (get_or [] current edges) visited queue in
      let found = visit-found goal (get_or [] current edges) visited queue in
      elim (Bool-cases (points goal (get_or [] current edges))) [
        | inl leads ↦ extend current goal here leads
        | inr none ↦
            let spec = visit-Visited goal (get_or [] current edges) visited queue none in
            search_path_sound fuel out.1 out.2
              (λ k among. elim (Bool-cases (contains k queue)) [
                | inl before ↦ reached k (ground (arith, before))
                | inr new ↦ inr (extend current k here (ground (arith, spec.grown_has k)))
              ])
              (rw (found ∙ none) at h)
      ]

  -- The node leads to no goal and only into the set.
  abbrev Done : IdSet → String → Type 0
  Done set k =
      (points goal (get_or [] k edges) ≡ false)
      × ((j : String) → points j (get_or [] k edges) ≡ true → has j set ≡ true)

  abbrev Closed : IdSet → Type 0
  Closed set = (k : String) → has k set ≡ true → Done set k

  module _ (universe : List String)
      (known : (a k : String)
        → points k (get_or [] a edges) ≡ true
        → contains k universe ≡ true) where
    record Searching (visited : IdSet) (queue : List String) : Type 0 where
      pub unique : HasUniqueKeys visited
      pub inside : (k : String) → has k visited ≡ true → contains k universe ≡ true
      pub open_or_done :
          (k : String) → has k visited ≡ true → (contains k queue ≡ true) ⊎ Done visited k

    search_step :
        (current : String) (queue : List String) (visited : IdSet)
        → points goal (get_or [] current edges) ≡ false
        → Searching visited (current ∷ queue)
        → let out = visit goal (get_or [] current edges) visited queue in Searching out.1 out.2
    unfolding contains
    search_step current queue visited none h =
        let spec = visit-Visited goal (get_or [] current edges) visited queue none in
        record {
          unique = spec.unique h.unique;
          inside = λ k among. elim (Bool-cases (has k visited)) [
            | inl before ↦ h.inside k before
            | inr new ↦ known current k (ground (arith, spec.seen_has k))
          ];
          open_or_done = λ k among. elim (Bool-cases (has k visited)) [
            | inr new ↦ inl (ground (arith, spec.seen_has k, spec.grown_has k))
            | inl before ↦ elim (Bool-cases (key_eq current k)) [
              | inl same ↦ inr (
                  subst (Done (visit goal (get_or [] current edges) visited queue).1)
                    ((key_iff current k).0 same) (none, λ j leads. ground (arith, spec.seen_has j)))
              | inr other ↦ elim (h.open_or_done k before) [
                | inl queued ↦ inl (ground (arith, spec.grown_has k, queued))
                | inr done ↦
                    inr (done.0, λ j leads. ground (arith, spec.seen_has j, done.1 j leads))
              ]
            ]
          ];
        }

    search_path_complete :
        (fuel : ℕ) (visited : IdSet) (queue : List String)
        → Searching visited queue
        → length queue + length universe ≤ length visited + fuel
        → search_path fuel edges goal visited queue ≡ false
        → (set : IdSet) × ((k : String) → has k visited ≡ true → has k set ≡ true) × Closed set
    unfolding search_path contains
    search_path_complete fuel visited [] h enough run = (
      visited,
      λ k among. among,
      λ k among. elim (h.open_or_done k among) [ inl queued ↦ cc | inr done ↦ done ],
    )
    search_path_complete zero visited (current ∷ queue) h enough run =
        let bound =
          length_le_of_Distinct (keys visited) universe (HasUniqueKeys→Distinct visited h.unique)
            (λ k among. h.inside k (has-contains k visited ∙ among)) in
        absurd (omega (arith, bound, length-keys visited, enough))
    search_path_complete (suc fuel) visited (current ∷ queue) h enough run =
        let out = visit goal (get_or [] current edges) visited queue in
        let found = visit-found goal (get_or [] current edges) visited queue in
        elim (Bool-cases (points goal (get_or [] current edges))) [
          | inl leads ↦ cc (rw (found ∙ leads) at run)
          | inr none ↦
              let spec = visit-Visited goal (get_or [] current edges) visited queue none in
              let (set, grows, closed) =
                search_path_complete fuel out.1 out.2 (search_step current queue visited none h)
                  (ground (arith, spec.balance)) (rw (found ∙ none) at run) in
              (set, λ k among. grows k (ground (arith, spec.seen_has k, among)), closed)
        ]

  -- A closed set that has the start has no chain to the goal.
  Closed-Leads :
      (set : IdSet)
      → Closed set
      → has from set ≡ true
      → (b : String) → Leads edges from b
      → has b set ≡ true
  Closed-Leads set closed start b (Leads.one c step) = (closed from start).1 c step
  Closed-Leads set closed start b (Leads.more a c chain step) =
      (closed a (Closed-Leads set closed start a chain)).1 c step

  Closed-goal : (set : IdSet) → Closed set → has from set ≡ true → Leads edges from goal → ⊥
  Closed-goal set closed start (Leads.one c step) = cc ((closed from start).0, step)
  Closed-goal set closed start (Leads.more a c chain step) =
      cc ((closed a (Closed-Leads set closed start a chain)).0, step)

all_targets : Dict String (List PlanEdgeSpec) → List String
all_targets [] = []
all_targets ((id, edges) ∷ rest) = map (λ edge. edge.to) edges ++ all_targets rest

length-all_targets :
    (edges : Dict String (List PlanEdgeSpec)) → length (all_targets edges) ≡ edge_total edges
unfolding all_targets
length-all_targets [] = refl
length-all_targets ((id, es) ∷ rest) =
    length-append (map (λ (edge : PlanEdgeSpec). edge.to) es) (all_targets rest)
    ∙ ground (arith, length-targets es, length-all_targets rest)
  where
    length-targets :
        (es : List PlanEdgeSpec) → length (map (λ (edge : PlanEdgeSpec). edge.to) es) ≡ length es
    length-targets [] = refl
    length-targets (edge ∷ es) = ap suc (length-targets es)

contains-targets :
    (k : String) (es : List PlanEdgeSpec) (others : List String)
    → (points k es || contains k others) ≡ true
    → contains k (map (λ (edge : PlanEdgeSpec). edge.to) es ++ others) ≡ true
unfolding points contains
contains-targets k [] others h = h
contains-targets k (edge ∷ es) others h = ground (arith, contains-targets k es others)

points-all_targets :
    (edges : Dict String (List PlanEdgeSpec)) (a k : String)
    → points k (get_or [] a edges) ≡ true
    → contains k (all_targets edges) ≡ true
unfolding all_targets get_or points
points-all_targets [] a k h = cc
points-all_targets ((id, es) ∷ rest) a k h = elim (Bool-cases (key_eq id a)) [
  | inl same ↦ contains-targets k es (all_targets rest) (rw (rw same at h) refl)
  | inr other ↦
      contains-targets k es (all_targets rest)
        (ground (arith, points-all_targets rest a k (rw other at h)))
]

-- The search for a dependency path answers true exactly when a chain of one or more edges leads
-- from the first node to the second, on any map of edges.
pub has_dependency_path_lem :
    (edges : Dict String (List PlanEdgeSpec)) (from goal : String)
    → (has_dependency_path edges from goal ≡ true → Leads edges from goal)
      × (Leads edges from goal → has_dependency_path edges from goal ≡ true)
unfolding has_dependency_path contains has put
has_dependency_path_lem edges from goal =
    let fuel = suc (edge_total edges) in
    let universe = from ∷ all_targets edges in
    (
      search_path_sound edges from goal fuel (put from tt []) (from ∷ [])
          (λ k among. inl (sym ((key_iff from k).0 (ground arith)))),
      λ chain. elim (Bool-cases (has_dependency_path edges from goal)) [
        | inl found ↦ found
        | inr missed ↦
            let (set, grows, closed) =
              search_path_complete edges from goal universe
                (λ a k step. ground (arith, points-all_targets edges a k step)) fuel
                (put from tt []) (from ∷ [])
                (record {
                  unique = (refl, tt);
                  inside = λ k among. ground arith;
                  open_or_done = λ k among. inl among;
                })
                (ground (arith, length-all_targets edges)) missed in
            absurd
              (Closed-goal edges from goal set closed (grows from (rw (key_refl from) refl)) chain)
      ],
    )
