-- ===== src/Plan/Validator/Search.antt =====
-- The inner loop of `hasDependencyPath`, over the edges of one node.
use go_agent.Prelude.{
  suc, ◌+◌, String, Bool, true, false, ◌&&◌, ◌||◌, not, List, [], ◌∷◌, ◌++◌, string_key, key_eq,
  key_iff, ◌≡◌, refl, ap, ◌∙◌, arith, length, length-append, Bool-cases, inl, inr,
}
use go_agent.Prelude.Dict.{Dict, get_or, put, has, has-put, HasUniqueKeys, put-HasUniqueKeys}
use go_agent.Prelude.Members.{contains, contains_snoc, put_new}
use go_agent.Control.{PlanEdgeSpec}
use go_agent.Plan.Validator.Edges.{IdSet}
use go_agent.Plan.Validator.Paths.{visit}

-- One of the edges leads to `k`.
unfoldable pub points : String → List PlanEdgeSpec → Bool
points k [] = false
points k (edge ∷ edges) = key_eq edge.to k || points k edges

-- A chain of one or more edges leads from `a` to a node.
pub data Leads (edges : Dict String (List PlanEdgeSpec)) (a : String) : String → Type 0 where
  one : (b : String) → points b (get_or [] a edges) ≡ true → Leads edges a b
  more : (b c : String) → Leads edges a b → points c (get_or [] b edges) ≡ true → Leads edges a c

-- What the loop over the edges of one node does when none of them leads to the goal.
pub record Visited (edges : List PlanEdgeSpec) (visited : IdSet) (queue : List String)
    (seen : IdSet) (grown : List String) : Type 0 where
  pub seen_has : (k : String) → has k seen ≡ (has k visited || points k edges)
  pub grown_has :
      (k : String)
      → contains k grown ≡ (contains k queue || (points k edges && not (has k visited)))
  pub balance : length seen + length queue ≡ length visited + length grown
  pub unique : HasUniqueKeys visited → HasUniqueKeys seen

pub visit-found :
    (goal : String) (edges : List PlanEdgeSpec) (visited : IdSet) (queue : List String)
    → (visit goal edges visited queue).0 ≡ points goal edges
unfolding visit points
visit-found goal [] visited queue = refl
visit-found goal (edge ∷ edges) visited queue = ground (
  arith,
  visit-found goal edges visited queue,
  visit-found goal edges (put edge.to tt visited) (queue ++ edge.to ∷ []),
)

length-put_new :
    (k : String) (visited : IdSet)
    → has k visited ≡ false
    → length (put k tt visited) ≡ suc (length visited)
length-put_new k visited new =
    ap length (put_new k tt visited new) ∙ length-append visited ((k, tt) ∷ []) ∙ omega arith

pub visit-Visited :
    (goal : String) (edges : List PlanEdgeSpec) (visited : IdSet) (queue : List String)
    → points goal edges ≡ false
    → Visited edges visited queue
        (visit goal edges visited queue).1
        (visit goal edges visited queue).2
unfolding visit points
visit-Visited goal [] visited queue none = record {
  seen_has = λ k. ground arith;
  grown_has = λ k. ground arith;
  balance = refl;
  unique = λ h. h;
}
visit-Visited goal (edge ∷ edges) visited queue none =
    let other : key_eq edge.to goal ≡ false = ground arith in
    let later : points goal edges ≡ false = ground arith in
    elim (Bool-cases (has edge.to visited)) [
      | inl before ↦
          let rest = visit-Visited goal edges visited queue later in
          rw (other, before)
            (record {
              seen_has = λ k. ground (arith, rest.seen_has k, key_iff edge.to k);
              grown_has = λ k. ground (arith, rest.grown_has k, key_iff edge.to k);
              balance = rest.balance;
              unique = rest.unique;
            })
      | inr new ↦
          let next = put edge.to tt visited in
          let rest = visit-Visited goal edges next (queue ++ edge.to ∷ []) later in
          rw (other, new)
            (record {
              seen_has = λ k. ground (arith, rest.seen_has k, has-put edge.to k tt visited);
              grown_has = λ k. ground (
                arith,
                rest.grown_has k,
                has-put edge.to k tt visited,
                contains_snoc k edge.to queue,
                key_iff edge.to k,
              );
              balance = ground (
                arith,
                rest.balance,
                length-put_new edge.to visited new,
                length-append queue (edge.to ∷ []),
              );
              unique = λ h. rest.unique (put-HasUniqueKeys edge.to tt visited h);
            })
    ]
