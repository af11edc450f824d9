-- ===== src/Prelude/Members.antt =====
-- Membership by a Boolean test, for lists of keys and for the keys of a map.
use mathlib.Core.Path.{◌≡◌, refl, sym, ◌∙◌}
use mathlib.Core.Bool.{Bool, true, false, ◌||◌}
use mathlib.Core.Option.{none, some}
use mathlib.Core.List.{List, [], ◌∷◌, ◌++◌}
use mathlib.Core.Logic.{inl, inr}
use native.Mathlib.Omega.{arith}
use go_agent.Prelude.Tests.{if◌then◌else◌}
use go_agent.Prelude.Lists.{All}
use go_agent.Prelude.Text.{Key, key_eq, key_iff, key_refl, Bool-cases}
use go_agent.Prelude.Dict.{Dict, keys, get, get_or, put, has, HasUniqueKeys}
use go_agent.Prelude.Sort.{insert_by, sort_by}

module _ {ℓ} {K : Type ℓ} ⦃e : Key K⦄ where
  unfoldable pub contains : K → List K → Bool
  contains k [] = false
  contains k (x ∷ xs) = if key_eq x k then true else contains k xs

  -- No element twice.
  abbrev pub Distinct : List K → Type 0
  Distinct [] = Unit
  Distinct (x ∷ xs) = (contains x xs ≡ false) × Distinct xs

  contains-insert_by :
      (k : K) (le : K → K → Bool) (x : K) (xs : List K)
      → contains k (insert_by le x xs) ≡ (if key_eq x k then true else contains k xs)
  unfolding contains insert_by
  contains-insert_by k le x [] = refl
  contains-insert_by k le x (y ∷ ys) = ground (arith, contains-insert_by k le x ys)

  pub contains-sort_by :
      (k : K) (le : K → K → Bool) (xs : List K) → contains k (sort_by le xs) ≡ contains k xs
  unfolding contains sort_by
  contains-sort_by k le [] = refl
  contains-sort_by k le (x ∷ xs) =
      contains-insert_by k le x (sort_by le xs) ∙ ground (arith, contains-sort_by k le xs)

  insert_by-Distinct :
      (le : K → K → Bool) (x : K) (xs : List K)
      → contains x xs ≡ false
      → Distinct xs
      → Distinct (insert_by le x xs)
  unfolding contains insert_by
  insert_by-Distinct le x [] absent h = (refl, tt)
  insert_by-Distinct le x (y ∷ ys) absent h = elim (Bool-cases (le x y)) [
    | inl first ↦ rw first (absent, h)
    | inr later ↦ rw later (
      contains-insert_by y le x ys ∙ ground (arith, key_iff x y, key_iff y x),
      insert_by-Distinct le x ys (ground arith) h.1,
    )
  ]

  pub sort_by-Distinct : (le : K → K → Bool) (xs : List K) → Distinct xs → Distinct (sort_by le xs)
  unfolding sort_by
  sort_by-Distinct le [] h = tt
  sort_by-Distinct le (x ∷ xs) h =
      insert_by-Distinct le x (sort_by le xs) (contains-sort_by x le xs ∙ h.0)
        (sort_by-Distinct le xs h.1)

  module _ {κ} {V : Type κ} where
    pub has-contains : (k : K) (d : Dict K V) → has k d ≡ contains k (keys d)
    unfolding has contains
    has-contains k [] = refl
    has-contains k ((j, v) ∷ d) = ground (arith, has-contains k d)

    pub HasUniqueKeys→Distinct : (d : Dict K V) → HasUniqueKeys d → Distinct (keys d)
    HasUniqueKeys→Distinct [] h = tt
    HasUniqueKeys→Distinct ((k, v) ∷ d) h =
        (sym (has-contains k d) ∙ h.0, HasUniqueKeys→Distinct d h.1)

    pub Distinct→HasUniqueKeys : (d : Dict K V) → Distinct (keys d) → HasUniqueKeys d
    Distinct→HasUniqueKeys [] h = tt
    Distinct→HasUniqueKeys ((k, v) ∷ d) h = (has-contains k d ∙ h.0, Distinct→HasUniqueKeys d h.1)

    -- A write under a new key stands at the end.
    pub put_new : (k : K) (v : V) (d : Dict K V) → has k d ≡ false → put k v d ≡ d ++ (k, v) ∷ []
    unfolding put has
    put_new k v [] h = refl
    put_new k v ((j, w) ∷ d) h = elim (Bool-cases (key_eq j k)) [
      | inl same ↦ cc (rw same at h)
      | inr other ↦ rw (other, put_new k v d (rw other at h)) refl
    ]

    pub has-snoc :
        (k j : K) (v : V) (d : Dict K V)
        → has k d ≡ false
        → key_eq j k ≡ false
        → has k (d ++ (j, v) ∷ []) ≡ false
    unfolding has
    has-snoc k j v [] h ne = rw ne
    has-snoc k j v ((i, w) ∷ d) h ne = ground (arith, has-snoc k j v d)

    pub get-get_or : (z : V) (k : K) (d : Dict K V) → has k d ≡ true → get k d ≡ some (get_or z k d)
    unfolding get get_or has
    get-get_or z k [] h = cc
    get-get_or z k ((j, v) ∷ d) h = elim (Bool-cases (key_eq j k)) [
      | inl same ↦ rw same
      | inr other ↦ rw other (get-get_or z k d (rw other at h))
    ]

    pub get_absent : (k : K) (d : Dict K V) → has k d ≡ false → get k d ≡ none
    unfolding get has
    get_absent k [] h = refl
    get_absent k ((j, v) ∷ d) h = elim (Bool-cases (key_eq j k)) [
      | inl same ↦ cc (rw same at h)
      | inr other ↦ rw other (get_absent k d (rw other at h))
    ]

  pub All-contains {κ} :
      (P : K → Type κ) (ks : List K) → ((k : K) → contains k ks ≡ true → P k) → All P ks
  unfolding contains
  All-contains P [] f = tt
  All-contains P (k ∷ ks) f = (
    f k (rw (key_refl k) refl),
    All-contains P ks (λ j here.
        f j (elim (Bool-cases (key_eq k j)) [ inl same ↦ rw same | inr other ↦ rw other here ])),
  )

  pub contains_snoc :
      (k j : K) (xs : List K) → contains k (xs ++ j ∷ []) ≡ (contains k xs || key_eq j k)
  unfolding contains
  contains_snoc k j [] = ground arith
  contains_snoc k j (x ∷ xs) = ground (arith, contains_snoc k j xs)

  pub Distinct-snoc :
      (k : K) (xs : List K) → contains k xs ≡ false → Distinct xs → Distinct (xs ++ k ∷ [])
  unfolding contains
  Distinct-snoc k [] new h = (refl, tt)
  Distinct-snoc k (x ∷ xs) new h = (
    contains_snoc x k xs ∙ ground (arith, key_iff x k, key_iff k x),
    Distinct-snoc k xs (ground arith) h.1,
  )
