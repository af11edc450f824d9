-- ===== src/Plan/Validator/Topological.antt =====
-- The loop of `topoSort` over its queue (internal/usecase/agentosplan/validator.go).
use go_agent.Prelude.{
  ℕ, zero, suc, ◌+◌, String, true, false, List, [], ◌∷◌, ◌++◌, string_key, key_eq, key_iff,
  key_refl, ◌≡◌, refl, sym, ap, ◌∙◌, subst, arith, Bool-cases, inl, inr, All,
}
use mathlib.Core.List.{append_assoc, append-nil}
use go_agent.Prelude.Dict.{Dict, get_or}
use go_agent.Prelude.Members.{contains, Distinct, contains_snoc, Distinct-snoc}
use go_agent.Control.{PlanEdgeSpec}
use go_agent.Plan.Validator.Order.{release, drain}
use go_agent.Plan.Validator.Counts.{occurrences, edges_between, pending_edges, pending_edges_snoc}
use go_agent.Plan.Validator.Release.{Released, release-Released}

-- The edges into an id come from the ids seen before.
abbrev pub FromSeen : List PlanEdgeSpec → List String → String → Type 0
FromSeen edges seen id =
    All (λ (edge : PlanEdgeSpec). key_eq edge.to id ≡ true → contains edge.from seen ≡ true) edges

-- Every edge into an id of the list comes from an id seen before it.
unfoldable pub IsForward : List PlanEdgeSpec → List String → List String → Type 0
IsForward edges seen [] = Unit
IsForward edges seen (id ∷ rest) = FromSeen edges seen id × IsForward edges (seen ++ id ∷ []) rest

pending_edges-FromSeen :
    (seen : List String) (id : String) (edges : List PlanEdgeSpec)
    → pending_edges seen id edges ≡ 0
    → FromSeen edges seen id
unfolding pending_edges
pending_edges-FromSeen seen id [] h = tt
pending_edges-FromSeen seen id (edge ∷ edges) h =
    (λ leads. ground arith, pending_edges-FromSeen seen id edges (ground arith))

module _ (edges : List PlanEdgeSpec) (children : Dict String (List String))
    (kids : (f k : String) → occurrences k (get_or [] f children) ≡ edges_between f k edges) where
  -- The invariant of the loop over the queue.
  pub record Draining (incoming : Dict String ℕ) (queue order : List String) : Type 0 where
    pub counts : (k : String) → get_or 0 k incoming ≡ pending_edges order k edges
    pub queued : (k : String) → contains k queue ≡ true → pending_edges order k edges ≡ 0
    pub placed : (k : String) → contains k order ≡ true → pending_edges order k edges ≡ 0
    pub apart : (k : String) → contains k order ≡ true → contains k queue ≡ false
    pub queue_distinct : Distinct queue
    pub order_distinct : Distinct order

  module _ (incoming : Dict String ℕ) (current : String) (queue order : List String)
      (h : Draining incoming (current ∷ queue) order) where
    pub current_new : contains current order ≡ false
    unfolding contains
    current_new = elim (Bool-cases (contains current order)) [
      | inr absent ↦ absent
      | inl placed ↦ ground (arith, h.apart current placed, key_refl current)
    ]

    taken_off :
        (k : String)
        → pending_edges (order ++ current ∷ []) k edges + occurrences k (get_or [] current children)
          ≡ pending_edges order k edges
    taken_off k =
        ap (λ n. pending_edges (order ++ current ∷ []) k edges + n) (kids current k)
        ∙ pending_edges_snoc order current k edges current_new

    pub released :
        Released
          (λ k. pending_edges (order ++ current ∷ []) k edges)
          (get_or [] current children)
          queue
          (release (get_or [] current children) incoming queue)
    unfolding contains
    released =
        release-Released (λ k. pending_edges (order ++ current ∷ []) k edges)
          (get_or [] current children) incoming queue
          (record {
            counts = λ k. h.counts k ∙ sym (taken_off k);
            queued = λ k among. taken_off k ∙ h.queued k (ground (arith, among));
            distinct = h.queue_distinct.1;
          })

    current_queued : pending_edges order current edges ≡ 0
    unfolding contains
    current_queued = h.queued current (rw (key_refl current) refl)

    placed_before :
        (k : String) → contains k (order ++ current ∷ []) ≡ true → pending_edges order k edges ≡ 0
    placed_before k among = elim (Bool-cases (contains k order)) [
      | inl before ↦ h.placed k before
      | inr new ↦
          let here : key_eq current k ≡ true = ground (arith, contains_snoc k current order) in
          subst (λ j. pending_edges order j edges ≡ 0) ((key_iff current k).0 here) current_queued
    ]

    left_queue : (k : String) → contains k (order ++ current ∷ []) ≡ true → contains k queue ≡ false
    unfolding contains
    left_queue k among = elim (Bool-cases (contains k order)) [
      | inl before ↦ ground (arith, h.apart k before)
      | inr new ↦
          let here : key_eq current k ≡ true = ground (arith, contains_snoc k current order) in
          subst (λ j. contains j queue ≡ false) ((key_iff current k).0 here) h.queue_distinct.0
    ]

    pub drain_step :
        let out = release (get_or [] current children) incoming queue in
        Draining out.0 out.1 (order ++ current ∷ [])
    drain_step = record {
      counts = released.counts;
      queued = released.queued;
      placed = λ k among. ground (arith, taken_off k, placed_before k among);
      apart = λ k among.
          released.origin k (left_queue k among)
            (ground (arith, taken_off k, placed_before k among));
      queue_distinct = released.distinct;
      order_distinct = Distinct-snoc current order current_new h.order_distinct;
    }

  pub drain_lem :
      (fuel : ℕ) (incoming : Dict String ℕ) (queue order : List String)
      → Draining incoming queue order
      → (part : List String) × (drain fuel children incoming queue order ≡ order ++ part)
        × IsForward edges order part
        × Distinct (drain fuel children incoming queue order)
  unfolding drain IsForward
  drain_lem zero incoming queue order h = ([], sym (append-nil order), tt, h.order_distinct)
  drain_lem (suc fuel) incoming [] order h = ([], sym (append-nil order), tt, h.order_distinct)
  drain_lem (suc fuel) incoming (current ∷ queue) order h =
      let out = release (get_or [] current children) incoming queue in
      let (part, reached, forward, distinct) =
        drain_lem fuel out.0 out.1 (order ++ current ∷ [])
          (drain_step incoming current queue order h) in
      (
        current ∷ part,
        reached ∙ append_assoc order (current ∷ []) part,
        (
          pending_edges-FromSeen order current edges
              (current_queued incoming current queue order h),
          forward,
        ),
        distinct,
      )
