-- ===== src/Prelude/Int.antt =====
-- Signed integers over the native numbers, and the wrap-around of a w-bit two's complement word.
use Prim.Native.Nat.{ℕ, suc, ◌+◌, ◌-◌, ◌%◌, ◌≤◌, ◌<◌}
use mathlib.Core.Path.{◌≡◌}
use mathlib.Core.Bool.{Bool, true, ◌&&◌}
use native.Mathlib.Omega.{arith}
use native.Mathlib.Nat.{mod-eq_of_lt}
use go_agent.Prelude.Tests.{ltb, leb, ◌==◌, if◌then◌else◌}

-- `negsuc n` is -(n + 1).
pub data ℤ : Type 0 where
  pos : ℕ → ℤ
  negsuc : ℕ → ℤ

abbrev pub zero_ℤ : ℤ
zero_ℤ = pos 0

abbrev pub pos_part : ℤ → ℕ
pos_part (pos n) = n
pos_part (negsuc n) = 0

abbrev pub neg_part : ℤ → ℕ
neg_part (pos n) = 0
neg_part (negsuc n) = suc n

-- a - b, as an integer.
abbrev pub sub_ℕ : ℕ → ℕ → ℤ
sub_ℕ a b = if leb b a then pos (a - b) else negsuc (b - a - 1)

infixl 65 ◌+ℤ◌
infix 50 ◌≤ℤ◌ ◌<ℤ◌ ◌==ℤ◌
unfoldable pub ◌+ℤ◌ : ℤ → ℤ → ℤ
a +ℤ b = sub_ℕ (pos_part a + pos_part b) (neg_part a + neg_part b)

abbrev pub ◌≤ℤ◌ : ℤ → ℤ → Type 0
a ≤ℤ b = pos_part a + neg_part b ≤ pos_part b + neg_part a

abbrev pub ◌<ℤ◌ : ℤ → ℤ → Type 0
a <ℤ b = pos_part a + neg_part b < pos_part b + neg_part a

abbrev pub ltb_ℤ : ℤ → ℤ → Bool
ltb_ℤ a b = ltb (pos_part a + neg_part b) (pos_part b + neg_part a)

abbrev pub leb_ℤ : ℤ → ℤ → Bool
leb_ℤ a b = leb (pos_part a + neg_part b) (pos_part b + neg_part a)

abbrev pub ◌==ℤ◌ : ℤ → ℤ → Bool
a ==ℤ b = pos_part a == pos_part b && neg_part a == neg_part b

pub ltb_ℤ→lt : (a b : ℤ) → ltb_ℤ a b ≡ true → a <ℤ b
ltb_ℤ→lt a b h = ground arith

-- The word that reads the residue `r` below 2 * half as a signed number.
abbrev of_residue : ℕ → ℕ → ℤ
of_residue half r = if ltb r half then pos r else negsuc (half + half - 1 - r)

-- The value that a signed word of modulus 2 * half keeps of an integer.
unfoldable pub wrap : ℕ → ℤ → ℤ
wrap half (pos n) = of_residue half (n % (half + half))
wrap half (negsuc n) = of_residue half (half + half - 1 - n % (half + half))

-- Addition in a signed word.
unfoldable pub add_int : ℕ → ℤ → ℤ → ℤ
unfolding wrap ◌+ℤ◌
add_int half a b = wrap half (a +ℤ b)

-- The integers that a signed word of modulus 2 * half holds.
abbrev pub FitsInt : ℕ → ℤ → Type 0
FitsInt half a = (pos_part a < half) × (neg_part a ≤ half)

-- What fits is kept.
pub wrap_fits : (half : ℕ) (a : ℤ) → FitsInt half a → wrap half a ≡ a
unfolding wrap
wrap_fits half (pos n) h = ground (arith, mod-eq_of_lt {n = n} {m = half + half})
wrap_fits half (negsuc n) h = ground (arith, mod-eq_of_lt {n = n} {m = half + half})

pub add_int_fits : (half : ℕ) (a b : ℤ) → FitsInt half (a +ℤ b) → add_int half a b ≡ a +ℤ b
unfolding add_int
add_int_fits half a b h = wrap_fits half (a +ℤ b) h
