-- ===== src/Prelude.antt =====
-- The names that the other modules share: the libraries', passed on, and those of seven children.
mod Tests
mod Lists
mod Words
mod Maps
mod Totals
mod Options
mod Majorities
pub use Tests.*
pub use Lists.*
pub use Majorities.{share_element, IsDistinct-le}
pub use Options.*
pub use Words.*
unfoldable pub use Maps.{Map, lookup, insert, delete, get_or, Unique}
pub use Maps.{
  lookup-insert, lookup-delete, lookup-insert_self, lookup-insert_ne, lookup-delete_self,
  lookup-delete_ne, insert_cases, delete_cases, insert-Unique, delete-Unique, SameMap,
  insert-SameMap, delete-SameMap, SameMap-get_or,
}
pub use Totals.{total, total_same}
pub use Prim.Native.Nat.{ℕ, zero, suc, ◌+◌, ◌-◌, ◌*◌, ◌/◌, ◌%◌, ◌≤◌, ◌<◌, min}
pub use Prim.Native.String.{String}
pub use mathlib.Core.Path.{◌≡◌, refl, sym, ap, subst, ◌∙◌}
pub use mathlib.Core.Logic.{◌≢◌, ◌↔◌, ◌⊎◌, inl, inr}
pub use mathlib.Core.Bool.{Bool, true, false, ◌&&◌, ◌||◌, not}
pub use mathlib.Core.Option.{Option, none, some}
pub use mathlib.Core.List.{List, [], ◌∷◌, ◌++◌, map}
pub use native.Mathlib.Omega.{arith}
pub use text.Mathlib.TextEquality.{eq_iff}
