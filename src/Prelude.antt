-- ===== src/Prelude.antt =====
-- The names that the other modules share: the libraries', passed on, and those of the children.
mod Tests
mod Lists
mod Text
pub mod Order
pub mod Sets
pub mod Found
pub mod Words
pub mod Maps
pub mod Sorted
pub use Tests.*
pub use Lists.*
pub use Text.{
  Bytes, Str, codes, str_eq→eq, str_eq_refl, str_eq_iff, strip_prefix?-append,
  strip_prefix?-eq_some,
}
unfoldable pub use Text.{str_eq, strip_prefix?}
pub use Prim.Native.Nat.{
  Ordering, ℕ, zero, suc, ◌+◌, ◌-◌, ◌*◌, ◌/◌, ◌%◌, ◌^◌, ◌≤◌, ◌<◌, min, compare,
}
pub use mathlib.Core.Path.{◌≡◌, refl, sym, ap, ap₂, ◌∙◌}
pub use mathlib.Core.Logic.{◌≢◌, ◌↔◌, ◌⊎◌, inl, inr}
pub use mathlib.Core.Bool.{Bool, true, false, not, ◌&&◌, ◌||◌}
pub use mathlib.Core.Option.{Option, none, some}
pub use mathlib.Core.List.{List, [], ◌∷◌, ◌++◌, map}
pub use native.Mathlib.Omega.{arith}
