-- ===== src/Prelude/Keys.antt =====
-- Structs as keys of a map: Go's `==` on a pair of keys, and on a type that a pair represents.
use mathlib.Core.Path.{◌≡◌, sym, ap, ◌∙◌}
use mathlib.Core.Logic.{◌↔◌}
use mathlib.Core.Bool.{Bool, true, ◌&&◌}
use native.Mathlib.Omega.{arith}
use go_agent.Prelude.Text.{Key, key_eq, key_iff}

abbrev pub both {ℓ κ} : {A : Type ℓ} {B : Type κ} ⦃k : Key A⦄ ⦃j : Key B⦄ → A × B → A × B → Bool
both p q = key_eq p.0 q.0 && key_eq p.1 q.1

pub both_iff {ℓ κ} :
    {A : Type ℓ} {B : Type κ} ⦃k : Key A⦄ ⦃j : Key B⦄ (p q : A × B) → (both p q ≡ true) ↔ (p ≡ q)
both_iff p q = (
  λ same. ground (arith, key_iff p.0 q.0, key_iff p.1 q.1),
  λ equal.
      ground (arith, key_iff p.0 q.0, key_iff p.1 q.1, ap (λ r. r.0) equal, ap (λ r. r.1) equal),
)

instance abbrev pub pair_key {ℓ κ} : {A : Type ℓ} {B : Type κ} ⦃k : Key A⦄ ⦃j : Key B⦄ → Key (A × B)
pair_key = record { beq = both; beq_iff = both_iff }

-- `f` takes a struct apart and `g` builds it again.
module _ {ℓ κ} {A : Type ℓ} {B : Type κ} (f : A → B) (g : B → A)
    (back : (a : A) → g (f a) ≡ a) where
  pub via_iff : ⦃k : Key B⦄ (a b : A) → (key_eq (f a) (f b) ≡ true) ↔ (a ≡ b)
  via_iff a b = (
    λ same. sym (back a) ∙ ap g ((key_iff (f a) (f b)).0 same) ∙ back b,
    λ equal. (key_iff (f a) (f b)).1 (ap f equal),
  )

  abbrev pub key_via : ⦃k : Key B⦄ → Key A
  key_via = record { beq = λ a b. key_eq (f a) (f b); beq_iff = via_iff }
