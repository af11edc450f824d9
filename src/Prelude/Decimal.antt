-- ===== src/Prelude/Decimal.antt =====
-- The text of a number that Go's `fmt` writes for `%d`.
use Prim.Native.Nat.{ℕ, zero, suc, ◌+◌, ◌/◌, ◌%◌}
use Prim.Native.String.{String, ◌++◌, slice}
use mathlib.Core.Path.{◌≡◌, refl}
use go_agent.Prelude.Tests.{ltb, if◌then◌else◌}

-- The decimal digits of `n` before those of `s`; the fuel is above the number of digits.
digits_onto : ℕ → ℕ → String → String
digits_onto zero n s = s
digits_onto (suc fuel) n s =
    let written = slice "0123456789" (n % 10) (n % 10 + 1) ++ s in
    let rest = digits_onto fuel (n / 10) written in if ltb n 10 then written else rest

-- `%d` of a number that is not negative.
unfoldable pub decimal : ℕ → String
unfolding digits_onto
decimal n = digits_onto (suc n) n ""

infixr 70 ◌+++◌
abbrev pub ◌+++◌ : String → String → String
s +++ t = s ++ t

decimal_test : decimal 1207 ≡ "1207"
unfolding decimal
decimal_test = refl
