-- ===== src/Prelude/Errors.antt =====
-- Go errors. `fmt.Errorf("%w: FORMAT", sentinel, args)` is `errorf sentinel "FORMAT" args`, with
-- the text arguments; numbers that a message prints are left out. `error` is `Option Error`, and
-- `(T, error)` is `Result T`.
use Prim.Native.String.{String}
use mathlib.Core.Path.{◌≡◌, refl, ap}
use mathlib.Core.Logic.{◌⊎◌, inl, inr}
use mathlib.Core.Bool.{Bool, true, false}
use mathlib.Core.Option.{Option, none, some}
use mathlib.Core.List.{List, [], ◌∷◌}

-- The sentinel errors of agentos/core that the modelled code wraps.
pub data Sentinel : Type 0 where
  err_invalid_run_plan err_invalid_run_spec err_invalid_backend_ref : Sentinel
  err_invalid_plan_scope err_invalid_expression err_invalid_signal : Sentinel
  err_invalid_ledger_entry err_invalid_ledger_scope err_invalid_resource_ref : Sentinel
  err_invalid_governed_action err_invalid_governed_action_scope : Sentinel
  err_capability_not_found err_invalid_artifact err_foreign : Sentinel
  err_plan_route_not_found err_invalid_plan_event : Sentinel

pub data Error : Type 0 where
  errorf : Sentinel → String → List String → Error
  -- An error behind a prefix, `"prefix: %w"`; the arguments of the prefix are left out.
  wrapf : String → Error → Error
  -- `fmt.Errorf("%w: %w", sentinel, err)`.
  wrap_as : Sentinel → Error → Error

pub data Result {ℓ} (A : Type ℓ) : Type ℓ where
  ok : A → Result A
  err : Error → Result A

infixl 5 ◌>>=◌
abbrev pub ◌>>=◌ {ℓ κ} : {A : Type ℓ} {B : Type κ} → Result A → (A → Result B) → Result B
ok a >>= f = f a
err e >>= f = err e

-- `if err := a; err != nil { return err }`, and then `b`.
abbrev pub first_error : Option Error → Option Error → Option Error
first_error none b = b
first_error (some e) b = some e

abbrev pub check {ℓ} : {A : Type ℓ} → Option Error → Result A → Result A
check none r = r
check (some e) r = err e

-- A loop that returns the first error of a test.
abbrev pub check_all {ℓ} : {A : Type ℓ} → (A → Option Error) → List A → Option Error
check_all f [] = none
check_all f (x ∷ xs) = first_error (f x) (check_all f xs)

-- The call returns no error.
abbrev pub is_ok {ℓ} : {A : Type ℓ} → Result A → Bool
is_ok (ok a) = true
is_ok (err e) = false

value_or : {A : Type 0} → A → Result A → A
value_or a (ok b) = b
value_or a (err e) = a

pub ok_injective : {A : Type 0} (a b : A) → ok a ≡ ok b → a ≡ b
unfolding value_or
ok_injective a b h = ap (value_or a) h

-- A chain that returns no error has a first call that returns none.
pub bind_ok {ℓ κ} :
    {A : Type ℓ} {B : Type κ} (r : Result A) (f : A → Result B) {b : B}
    → (r >>= f) ≡ ok b
    → (a : A) × (r ≡ ok a) × (f a ≡ ok b)
bind_ok (ok a) f h = (a, refl, h)
bind_ok (err e) f h = cc

pub is_ok-bind {ℓ κ} :
    {A : Type ℓ} {B : Type κ} (r : Result A) (f : A → Result B)
    → is_ok r ≡ true
    → ((a : A) → is_ok (f a) ≡ true)
    → is_ok (r >>= f) ≡ true
is_ok-bind (ok a) f h step = step a
is_ok-bind (err e) f h step = cc

pub check_ok {ℓ} :
    {A : Type ℓ} (e : Option Error) (r : Result A) {a : A}
    → check e r ≡ ok a
    → (e ≡ none) × (r ≡ ok a)
check_ok none r h = (refl, h)
check_ok (some e) r h = cc

pub Option-cases {ℓ} : {A : Type ℓ} (o : Option A) → (o ≡ none) ⊎ ((a : A) × (o ≡ some a))
Option-cases none = inl refl
Option-cases (some a) = inr (a, refl)

pub Result-cases {ℓ} :
    {A : Type ℓ} (r : Result A) → ((a : A) × (r ≡ ok a)) ⊎ ((e : Error) × (r ≡ err e))
Result-cases (ok a) = inl (a, refl)
Result-cases (err e) = inr (e, refl)

pub first_error-none : (a b : Option Error) → first_error a b ≡ none → (a ≡ none) × (b ≡ none)
first_error-none none b h = (refl, h)
first_error-none (some e) b h = cc

some_or : {A : Type 0} → A → Option A → A
some_or a none = a
some_or a (some b) = b

pub some_injective : {A : Type 0} (a b : A) → some a ≡ some b → a ≡ b
unfolding some_or
some_injective a b h = ap (some_or a) h
