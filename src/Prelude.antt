-- ===== src/Prelude.antt =====
-- The names that the other modules share: the libraries', passed on, and those of the children.
mod Tests
mod Lists
mod Int
mod Text
mod Errors
pub mod Dict
pub mod Sort
pub mod Members
pub mod Pigeonhole
pub mod Keys
pub mod Decimal
pub mod Page
pub use Tests.*
pub use Lists.*
pub use Int.{ℤ, pos, negsuc, pos_part, neg_part, zero_ℤ, ltb_ℤ, leb_ℤ, ◌==ℤ◌, ◌<ℤ◌, ◌≤ℤ◌, FitsInt}
pub use Int.{ltb_ℤ→lt, wrap_fits, add_int_fits}
unfoldable pub use Int.{◌+ℤ◌, wrap, add_int}
pub use Text.{is_empty, Key, key_eq, key_iff, string_key, key_refl, key_absent, Bool-cases}
pub use Text.{str_leb, str_leb_refl, str_leb_total, str_leb_trans, str_leb_antisym}
pub use Errors.*
pub use Prim.Native.Nat.{ℕ, zero, suc, ◌+◌, ◌-◌, ◌*◌, ◌/◌, ◌%◌, ◌^◌, ◌≤◌, ◌<◌}
pub use Prim.Native.String.{String}
pub use mathlib.Core.Path.{◌≡◌, refl, sym, ap, ◌∙◌, subst}
pub use mathlib.Core.Logic.{◌≢◌, ◌↔◌, ◌⊎◌, inl, inr}
pub use mathlib.Core.Bool.{Bool, true, false, ◌&&◌, ◌||◌, not}
pub use mathlib.Core.Option.{Option, none, some}
pub use mathlib.Core.List.{List, [], ◌∷◌, ◌++◌, map}
pub use native.Mathlib.Omega.{arith}
