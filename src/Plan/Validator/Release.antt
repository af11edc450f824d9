-- ===== src/Plan/Validator/Release.antt =====
-- The inner loop of `topoSort`, over the children of the current node.
use go_agent.Prelude.{
  ℕ, ◌+◌, ◌-◌, ◌==◌, String, str_leb, true, false, List, [], ◌∷◌, ◌++◌, string_key, key_eq, key_iff,
  key_refl, ◌≡◌, arith, Bool-cases, inl, inr,
}
use go_agent.Prelude.Dict.{Dict, get_or, put, get_or-put}
use go_agent.Prelude.Sort.{sort_by}
use go_agent.Prelude.Members.{
  contains, Distinct, contains-sort_by, sort_by-Distinct, contains_snoc, Distinct-snoc,
}
use go_agent.Plan.Validator.Order.{release}
use go_agent.Plan.Validator.Counts.{occurrences}

-- What the loop over the children needs: the counts still hold the children that are left, and no
-- queued id has a count. `base` gives the counts once all children are taken off.
pub record Releasing (base : String → ℕ) (rest : List String) (incoming : Dict String ℕ)
    (queue : List String) : Type 0 where
  pub counts : (k : String) → get_or 0 k incoming ≡ base k + occurrences k rest
  pub queued : (k : String) → contains k queue ≡ true → base k + occurrences k rest ≡ 0
  pub distinct : Distinct queue

-- What it gives.
pub record Released (base : String → ℕ) (rest queue : List String)
    (out : Dict String ℕ × List String) : Type 0 where
  pub counts : (k : String) → get_or 0 k out.0 ≡ base k
  pub queued : (k : String) → contains k out.1 ≡ true → base k ≡ 0
  pub distinct : Distinct out.1
  pub origin :
      (k : String) → contains k queue ≡ false → occurrences k rest ≡ 0 → contains k out.1 ≡ false

module _ (base : String → ℕ) (child : String) (rest : List String) (incoming : Dict String ℕ)
    (queue : List String) (h : Releasing base (child ∷ rest) incoming queue) where
  abbrev count : ℕ
  count = get_or 0 child incoming - 1

  counts_next : (k : String) → get_or 0 k (put child count incoming) ≡ base k + occurrences k rest
  counts_next k = ground (
    arith,
    get_or-put 0 child k count incoming,
    key_iff child k,
    key_refl child,
    h.counts k,
    h.counts child,
  )

  child_new : contains child queue ≡ false
  child_new = elim (Bool-cases (contains child queue)) [
    | inr absent ↦ absent
    | inl among ↦ ground (arith, h.queued child among, key_refl child)
  ]

  queued_before : (k : String) → contains k queue ≡ true → base k + occurrences k rest ≡ 0
  queued_before k among = ground (arith, h.queued k among)

  wait_next : Releasing base rest (put child count incoming) queue
  wait_next = record { counts = counts_next; queued = queued_before; distinct = h.distinct }

  push_next :
      (count == 0) ≡ true
      → Releasing base rest (put child count incoming) (sort_by str_leb (queue ++ child ∷ []))
  push_next free = record {
    counts = counts_next;
    queued = λ k among. elim (Bool-cases (contains k queue)) [
      | inl before ↦ queued_before k before
      | inr absent ↦
          let here : key_eq child k ≡ true = ground (
            arith,
            contains-sort_by k str_leb (queue ++ child ∷ []),
            contains_snoc k child queue,
          ) in
          ground (arith, counts_next k, get_or-put 0 child k count incoming)
    ];
    distinct =
        sort_by-Distinct str_leb (queue ++ child ∷ [])
          (Distinct-snoc child queue child_new h.distinct);
  }

pub release-Released :
    (base : String → ℕ) (rest : List String) (incoming : Dict String ℕ) (queue : List String)
    → Releasing base rest incoming queue
    → Released base rest queue (release rest incoming queue)
unfolding release
release-Released base [] incoming queue h = record {
  counts = λ k. ground (arith, h.counts k);
  queued = λ k among. ground (arith, h.queued k among);
  distinct = h.distinct;
  origin = λ k absent none. absent;
}
release-Released base (child ∷ rest) incoming queue h =
    let count = get_or 0 child incoming - 1 in
    elim (Bool-cases (count == 0)) [
      | inl free ↦
          let pushed = sort_by str_leb (queue ++ child ∷ []) in
          let later =
            release-Released base rest (put child count incoming) pushed
              (push_next base child rest incoming queue h free) in
          rw free (record {
            counts = later.counts;
            queued = later.queued;
            distinct = later.distinct;
            origin = λ k absent none.
                later.origin k
                  (ground (
                    arith,
                    contains-sort_by k str_leb (queue ++ child ∷ []),
                    contains_snoc k child queue,
                  ))
                  (ground arith);
          })
      | inr held ↦
          let later =
            release-Released base rest (put child count incoming) queue
              (wait_next base child rest incoming queue h) in
          rw held (record {
            counts = later.counts;
            queued = later.queued;
            distinct = later.distinct;
            origin = λ k absent none. later.origin k absent (ground arith);
          })
    ]
