-- ===== src/Prelude/Text.antt =====
-- Texts as keys: the emptiness test, equality as an instance, and the order of Go's `<` on strings
-- (bytewise, which for UTF-8 is the order of the code points).
use Prim.Native.Nat.{ℕ, compare as compare_ℕ, Ordering}
use Prim.Native.Char.{code}
use Prim.Native.String.compare
use Prim.Native.String.{String, compare, then}
use mathlib.Core.Path.{◌≡◌, refl, sym, ◌∙◌, ap}
use mathlib.Core.Logic.{◌↔◌, ◌⊎◌, ◌≢◌, inl, inr}
use mathlib.Core.Bool.{Bool, true, false}
use native.Mathlib.Omega.{arith}
use text.Mathlib.Text.{◌==◌ as str_eq}
use text.Mathlib.TextEquality.{eq_iff, path_by_compare}
use text.Mathlib.TextPositions.{compare_refl}

-- The test `s == ""`.
abbrev pub is_empty : String → Bool
is_empty String.[] = true
is_empty (String.◌∷◌ c s) = false

pub Bool-cases : (b : Bool) → (b ≡ true) ⊎ (b ≡ false)
Bool-cases true = inl refl
Bool-cases false = inr refl

-- Go's `==` on a type of keys.
pub record Key {ℓ} (K : Type ℓ) : Type ℓ where
  pub beq : K → K → Bool
  pub beq_iff : (a b : K) → (beq a b ≡ true) ↔ (a ≡ b)

module _ {ℓ} {K : Type ℓ} ⦃e : Key K⦄ where
  abbrev pub key_eq : K → K → Bool
  key_eq = e.beq

  pub key_iff : (a b : K) → (key_eq a b ≡ true) ↔ (a ≡ b)
  key_iff a b = e.beq_iff a b

  pub key_refl : (a : K) → key_eq a a ≡ true
  key_refl a = (key_iff a a).1 refl

  pub key_absent : (a b : K) → a ≢ b → key_eq a b ≡ false
  key_absent a b h = elim (Bool-cases (key_eq a b)) [
    | inl same ↦ absurd (h ((key_iff a b).0 same))
    | inr other ↦ other
  ]

instance abbrev pub string_key : Key String
string_key = record { beq = str_eq; beq_iff = eq_iff }

-- `s <= t`.
abbrev is_le : Ordering → Bool
is_le Ordering.gt = false
is_le _ = true

abbrev pub str_leb : String → String → Bool
str_leb s t = is_le (compare s t)

pub str_leb_refl : (s : String) → str_leb s s ≡ true
str_leb_refl s = ap is_le (compare_refl s)

flip : Ordering → Ordering
flip Ordering.lt = Ordering.gt
flip Ordering.eq = Ordering.eq
flip Ordering.gt = Ordering.lt

nat-flip : (m n : ℕ) → compare_ℕ m n ≡ flip (compare_ℕ n m)
unfolding flip
nat-flip m n = ground arith

then-flip : (o r : Ordering) → flip (then o r) ≡ then (flip o) (flip r)
unfolding flip
then-flip Ordering.lt r = refl
then-flip Ordering.eq r = refl
then-flip Ordering.gt r = refl

compare-flip : (s t : String) → compare s t ≡ flip (compare t s)
unfolding flip
compare-flip String.[] String.[] = refl
compare-flip String.[] (String.◌∷◌ d t) =
    compare.nil-cons d t ∙ ap flip (sym (compare.cons-nil d t))
compare-flip (String.◌∷◌ c s) String.[] =
    compare.cons-nil c s ∙ ap flip (sym (compare.nil-cons c s))
compare-flip (String.◌∷◌ c s) (String.◌∷◌ d t) = rw (
  compare.cons-cons c d s t,
  compare.cons-cons d c t s,
  then-flip,
  nat-flip (code c) (code d),
  compare-flip s t,
)

pub str_leb_total : (s t : String) → (str_leb s t ≡ true) ⊎ (str_leb t s ≡ true)
unfolding flip
str_leb_total s t = ground (arith, compare-flip s t)

pub str_leb_antisym : (s t : String) → str_leb s t ≡ true → str_leb t s ≡ true → s ≡ t
unfolding flip
str_leb_antisym s t p q = path_by_compare s t (ground (arith, compare-flip s t))

nat_trans :
    (a b c : ℕ) (x y z : Ordering)
    → (is_le x ≡ true → is_le y ≡ true → is_le z ≡ true)
    → is_le (then (compare_ℕ a b) x) ≡ true
    → is_le (then (compare_ℕ b c) y) ≡ true
    → is_le (then (compare_ℕ a c) z) ≡ true
nat_trans a b c x y z f p q = ground arith

pub str_leb_trans : (s t u : String) → str_leb s t ≡ true → str_leb t u ≡ true → str_leb s u ≡ true
str_leb_trans String.[] t String.[] p q = refl
str_leb_trans String.[] t (String.◌∷◌ d u) p q = ap is_le (compare.nil-cons d u)
str_leb_trans (String.◌∷◌ c s) String.[] u p q = cc (compare.cons-nil c s, p)
str_leb_trans (String.◌∷◌ c s) (String.◌∷◌ d t) String.[] p q = cc (compare.cons-nil d t, q)
str_leb_trans (String.◌∷◌ c s) (String.◌∷◌ d t) (String.◌∷◌ e u) p q =
    rw (compare.cons-cons c e s u) (
      nat_trans (code c) (code d) (code e) (compare s t) (compare t u) (compare s u)
        (str_leb_trans s t u) (rw (compare.cons-cons c d s t) at p)
        (rw (compare.cons-cons d e t u) at q))
