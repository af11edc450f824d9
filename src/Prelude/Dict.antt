-- ===== src/Prelude/Dict.antt =====
-- A Go map as a list of entries: `d[k]` with its `ok`, the write `d[k] = v`, and the keys.
use mathlib.Core.Path.{◌≡◌, refl, ◌∙◌}
use mathlib.Core.Logic.{inl, inr}
use mathlib.Core.Bool.{Bool, true, false}
use mathlib.Core.Option.{Option, none, some}
use mathlib.Core.List.{List, [], ◌∷◌}
use native.Mathlib.Omega.{arith}
use go_agent.Prelude.Tests.{if◌then◌else◌}
use go_agent.Prelude.Text.{Key, key_eq, key_iff, key_refl, Bool-cases}

abbrev pub Dict {ℓ κ} : Type ℓ → Type κ → Type (ℓ ⊔ κ)
Dict K V = List (K × V)

module _ {ℓ κ} {K : Type ℓ} {V : Type κ} where
  abbrev pub keys : Dict K V → List K
  keys [] = []
  keys ((k, v) ∷ d) = k ∷ keys d

module _ {ℓ κ} {K : Type ℓ} {V : Type κ} ⦃e : Key K⦄ where
  -- `v, ok := d[k]`.
  unfoldable pub get : K → Dict K V → Option V
  get k [] = none
  get k ((j, v) ∷ d) = if key_eq j k then some v else get k d

  -- `d[k]`, with the zero value of a missing key.
  unfoldable pub get_or : V → K → Dict K V → V
  get_or z k [] = z
  get_or z k ((j, v) ∷ d) = if key_eq j k then v else get_or z k d

  -- `d[k] = v`.
  unfoldable pub put : K → V → Dict K V → Dict K V
  put k v [] = (k, v) ∷ []
  put k v ((j, w) ∷ d) = if key_eq j k then (j, v) ∷ d else (j, w) ∷ put k v d

  -- `_, ok := d[k]`.
  unfoldable pub has : K → Dict K V → Bool
  has k [] = false
  has k ((j, v) ∷ d) = if key_eq j k then true else has k d

  pub get-put :
      (k j : K) (v : V) (d : Dict K V)
      → get j (put k v d) ≡ (if key_eq k j then some v else get j d)
  unfolding get put
  get-put k j v [] = refl
  get-put k j v ((i, w) ∷ d) =
      ground (arith, key_iff k j, key_iff i k, key_iff i j, get-put k j v d)

  pub get_or-put :
      (z : V) (k j : K) (v : V) (d : Dict K V)
      → get_or z j (put k v d) ≡ (if key_eq k j then v else get_or z j d)
  unfolding get_or put
  get_or-put z k j v [] = refl
  get_or-put z k j v ((i, w) ∷ d) =
      ground (arith, key_iff k j, key_iff i k, key_iff i j, get_or-put z k j v d)

  pub get-put_self : (k : K) (v : V) (d : Dict K V) → get k (put k v d) ≡ some v
  get-put_self k v d = rw (get-put k k v d, key_refl k)

  pub get-put_same :
      (k j : K) (v : V) (d : Dict K V) → key_eq k j ≡ true → get j (put k v d) ≡ some v
  get-put_same k j v d same = get-put k j v d ∙ rw same refl

  pub get-put_other :
      (k j : K) (v : V) (d : Dict K V) → key_eq k j ≡ false → get j (put k v d) ≡ get j d
  get-put_other k j v d other = get-put k j v d ∙ rw other refl

  pub has-get : (k : K) (d : Dict K V) → has k d ≡ (elim (get k d) [ none ↦ false | some v ↦ true ])
  unfolding has get
  has-get k [] = refl
  has-get k ((j, v) ∷ d) = ground (arith, has-get k d)

  pub get_or-get : (z : V) (k : K) (d : Dict K V) {v : V} → get k d ≡ some v → get_or z k d ≡ v
  unfolding get_or get
  get_or-get z k [] h = cc
  get_or-get z k ((j, v) ∷ d) {v = u} h = elim (Bool-cases (key_eq j k)) [
    | inl here ↦ let same : some v ≡ some u = rw here at h in rw here (cc)
    | inr later ↦ rw later (get_or-get z k d (rw later at h))
  ]

  -- No key twice.
  abbrev pub HasUniqueKeys : Dict K V → Type 0
  HasUniqueKeys [] = Unit
  HasUniqueKeys ((k, v) ∷ d) = (has k d ≡ false) × HasUniqueKeys d

  pub has-put :
      (k j : K) (v : V) (d : Dict K V) → has j (put k v d) ≡ (if key_eq k j then true else has j d)
  unfolding has put
  has-put k j v [] = refl
  has-put k j v ((i, w) ∷ d) =
      ground (arith, key_iff k j, key_iff i k, key_iff i j, has-put k j v d)

  pub put-HasUniqueKeys :
      (k : K) (v : V) (d : Dict K V) → HasUniqueKeys d → HasUniqueKeys (put k v d)
  unfolding put
  put-HasUniqueKeys k v [] h = (unfold has in refl, tt)
  put-HasUniqueKeys k v ((i, w) ∷ d) h = elim (Bool-cases (key_eq i k)) [
    | inl same ↦ rw same h
    | inr other ↦
        rw other
          (has-put k i v d ∙ ground (arith, key_iff i k, key_iff k i), put-HasUniqueKeys k v d h.1)
  ]

  -- A write under a key that is there keeps the list of keys.
  pub keys-put-has : (k : K) (v : V) (d : Dict K V) → has k d ≡ true → keys (put k v d) ≡ keys d
  unfolding has put
  keys-put-has k v [] h = cc
  keys-put-has k v ((i, w) ∷ d) h = ground (arith, keys-put-has k v d)
