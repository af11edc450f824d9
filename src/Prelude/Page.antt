-- ===== src/Prelude/Page.antt =====
-- A page of a listing: at most `limit` of the elements, all of them when the limit is 0 or less.
use Prim.Native.Nat.{ℕ, zero, suc, ◌≤◌}
use mathlib.Core.Path.{◌≡◌, refl, sym, ap}
use mathlib.Core.Logic.{inl, inr}
use mathlib.Core.Bool.{◌&&◌}
use mathlib.Core.List.{List, [], ◌∷◌}
use native.Mathlib.Omega.{arith}
use go_agent.Prelude.Tests.{if◌then◌else◌}
use go_agent.Prelude.Lists.{length, take}
use go_agent.Prelude.Int.{ℤ, pos, pos_part, ltb_ℤ}
use go_agent.Prelude.Text.{Bool-cases}

module _ {ℓ} {A : Type ℓ} where
  abbrev pub page : ℤ → List A → List A
  page limit xs = if ltb_ℤ (pos 0) limit then take (pos_part limit) xs else xs

  pub take_all : (n : ℕ) (xs : List A) → length xs ≤ n → take n xs ≡ xs
  take_all zero [] h = refl
  take_all (suc n) [] h = refl
  take_all zero (x ∷ xs) h = ground (arith, h)
  take_all (suc n) (x ∷ xs) h = ap (λ l. x ∷ l) (take_all n xs (omega (arith, h)))

  -- A cut that is made only where the list is too long.
  pub page-cut :
      (limit : ℤ) (xs : List A)
      → (if ltb_ℤ (pos 0) limit && ltb_ℤ limit (pos (length xs))
          then take (pos_part limit) xs
          else xs)
        ≡ page limit xs
  page-cut limit xs = elim (Bool-cases (ltb_ℤ (pos 0) limit)) [
    | inr open_ ↦ rw open_ refl
    | inl cut ↦ elim (Bool-cases (ltb_ℤ limit (pos (length xs)))) [
      | inl long ↦ rw (cut, long) refl
      | inr short ↦
          rw (cut, short) (sym (take_all (pos_part limit) xs (ground (arith, cut, short))))
    ]
  ]
