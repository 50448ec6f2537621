-- ===== src/Base.antt =====
-- Names that the whole library shares: the libraries', passed on, and those of the children.
mod Tests
mod Integers
mod Strings
mod Lists
mod Decimal
mod Queries
mod Members
mod Sorting
mod Ordering
mod Parse
unfoldable pub use Tests.*
unfoldable pub use Integers.*
unfoldable pub use Strings.*
unfoldable pub use Lists.*
unfoldable pub use Decimal.*
unfoldable pub use Queries.*
unfoldable pub use Members.*
unfoldable pub use Sorting.*
unfoldable pub use Ordering.*
unfoldable pub use Parse.*
pub use Prim.Native.Nat.{ℕ, zero, suc, ◌+◌, ◌-◌, ◌*◌, ◌/◌, ◌%◌, ◌^◌, ◌≤◌, ◌<◌}
pub use Prim.Native.String.{String, ◌++◌ as str_append}
pub use mathlib.Core.Path.{◌≡◌, refl, sym, ap, subst, ◌∙◌}
pub use mathlib.Core.Logic.{◌≢◌, ◌↔◌, ◌⊎◌, inl, inr}
pub use mathlib.Core.Bool.{Bool, true, false, not, ◌&&◌, ◌||◌}
pub use mathlib.Core.Option.{Option, none, some}
pub use mathlib.Core.List.{List, [], ◌∷◌, ◌++◌, map, Perm}
pub use native.Mathlib.Omega.{arith}
pub use text.Mathlib.Text.{◌==◌ as str_eq}
pub use text.Mathlib.TextEquality.{eq_iff as str_eq_iff}
