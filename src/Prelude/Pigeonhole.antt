-- ===== src/Prelude/Pigeonhole.antt =====
-- Lists without repetition, and their lengths.
use Prim.Native.Nat.{suc, ◌≤◌}
use mathlib.Core.Path.{◌≡◌, refl}
use mathlib.Core.Bool.{true, false}
use mathlib.Core.List.{List, [], ◌∷◌}
use mathlib.Core.Logic.{inl, inr}
use native.Mathlib.Omega.{arith}
use go_agent.Prelude.Tests.{if◌then◌else◌}
use go_agent.Prelude.Lists.{length}
use go_agent.Prelude.Text.{Key, key_eq, key_iff, key_refl, Bool-cases}
use go_agent.Prelude.Members.{contains, Distinct}

module _ {ℓ} {K : Type ℓ} ⦃e : Key K⦄ where
  -- The list without the first `k`.
  abbrev without : K → List K → List K
  without k [] = []
  without k (x ∷ xs) = if key_eq x k then xs else x ∷ without k xs

  length-without :
      (k : K) (xs : List K) → contains k xs ≡ true → suc (length (without k xs)) ≡ length xs
  unfolding contains
  length-without k [] h = cc
  length-without k (x ∷ xs) h = ground (arith, length-without k xs)

  contains-without :
      (j k : K) (xs : List K)
      → key_eq k j ≡ false
      → contains j xs ≡ true
      → contains j (without k xs) ≡ true
  unfolding contains
  contains-without j k [] ne h = cc
  contains-without j k (x ∷ xs) ne h = elim (Bool-cases (key_eq x k)) [
    | inl same ↦ ground (arith, key_iff x k, key_iff x j, key_iff k j)
    | inr other ↦ ground (arith, contains-without j k xs ne)
  ]

  pub length_le_of_Distinct :
      (xs ys : List K)
      → Distinct xs
      → ((k : K) → contains k xs ≡ true → contains k ys ≡ true)
      → length xs ≤ length ys
  unfolding contains
  length_le_of_Distinct [] ys distinct among = omega arith
  length_le_of_Distinct (x ∷ xs) ys distinct among =
      let here = among x (rw (key_refl x) refl) in
      let later = length_le_of_Distinct xs (without x ys) distinct.1 (λ k inside.
        elim (Bool-cases (key_eq x k)) [
          | inl same ↦ ground (arith, (key_iff x k).0 same, distinct.0, inside)
          | inr other ↦ contains-without k x ys other (among k (ground (arith, inside)))
        ]) in
      ground (arith, length-without x ys here, later)
