-- ===== src/Common.antt =====
-- What all modules share: library names passed on, Boolean tests, lists over the native numbers,
-- machine words and the result type.
mod Tests
mod Lists
mod Word
mod Faults
mod Int
mod Text
mod Decimal
mod Strings
mod Reading
pub use Tests.*
pub use Lists.*
unfoldable pub use Word.*
pub use Faults.*
unfoldable pub use Int.*
unfoldable pub use Text.*
unfoldable pub use Decimal.*
unfoldable pub use Strings.*
pub use Reading.*
pub use Prim.Native.Nat.{ℕ, zero, suc, ◌+◌, ◌-◌, ◌*◌, ◌/◌, ◌%◌, ◌^◌, ◌≤◌, ◌<◌}
pub use mathlib.Core.Path.{◌≡◌, refl, sym, ap, subst, ◌∙◌, fun_ext}
pub use mathlib.Core.Logic.{◌≢◌, ◌↔◌, ◌⊎◌, inl, inr}
pub use mathlib.Core.Bool.{Bool, true, false, not, ◌&&◌, ◌||◌}
pub use mathlib.Core.Option.{Option, none, some}
pub use mathlib.Core.List.{List, [], ◌∷◌, ◌++◌, map, append_assoc, append-nil}
pub use native.Mathlib.Omega.{arith}
