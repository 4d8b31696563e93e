-- ===== src/Prelude.antt =====
-- The names that the other modules share: the libraries', passed on, and those of the children.
mod Tests
mod Lists
mod Keys
mod Errors
mod Decimal
mod Logs
pub mod Sort
pub mod TextOrder
pub mod Strings
pub use Tests.*
pub use Lists.*
pub use Decimal.{decimal_inj, IsDigit, decimal-IsDigit}
unfoldable pub use Decimal.{decimal}
pub use Errors.*
pub use Logs.*
pub use Keys.{Eq, eq_string, string_ne, eq_pair, string_beq_iff, pair_beq_iff, pair_beq}
pub use Strings.*
unfoldable pub use Strings.{strip, upper, lower, replace_char, rstrip_char}
pub use Prim.Native.Nat.{ℕ, zero, suc, ◌+◌, ◌-◌, ◌*◌, ◌/◌, ◌%◌, ◌^◌, ◌≤◌, ◌<◌, min, max}
pub use Prim.Native.String.{String}
pub use mathlib.Core.Path.{◌≡◌, refl, sym, ap, ◌∙◌, subst}
pub use mathlib.Core.Logic.{◌≢◌, ◌↔◌, ◌⊎◌, inl, inr}
pub use mathlib.Core.Bool.{Bool, true, false, not, ◌&&◌, ◌||◌}
pub use mathlib.Core.Option.{Option, none, some}
pub use mathlib.Core.List.{List, [], ◌∷◌, ◌++◌, map}
pub use native.Mathlib.Omega.{arith}
pub use text.Mathlib.Text.{◌==◌ as string_eq}
