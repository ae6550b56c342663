-- ===== src/Prelude.antt =====
-- The names that the other modules share: the libraries', passed on, and those of three children.
mod Tests
mod Lists
mod Text
pub mod Result
pub mod Sequences
pub mod Sorting
pub mod Filters
pub use Tests.*
pub use Lists.*
unfoldable pub use Text.*
pub use Prim.Native.Nat.{ℕ, zero, suc, ◌+◌, ◌-◌, ◌*◌, ◌/◌, ◌%◌, ◌^◌, ◌≤◌, ◌<◌, min, max}
pub use Prim.Native.String.{String}
pub use mathlib.Core.Path.{◌≡◌, refl, sym, ap, ◌∙◌, subst}
pub use mathlib.Core.Logic.{◌≢◌, ◌↔◌, ◌⊎◌, inl, inr}
pub use mathlib.Core.Bool.{Bool, true, false, not, ◌&&◌, ◌||◌}
pub use mathlib.Core.Option.{Option, none, some}
pub use mathlib.Core.List.{
  List, [], ◌∷◌, ◌++◌, map, Mem, mem-cons, mem-cons_self, mem-cons_of_mem, Mem-prop, mem-map_of_mem,
}
pub use native.Mathlib.Omega.{arith}
pub use text.Mathlib.Text.{◌==◌}
pub use text.Mathlib.TextEquality.{eq_iff}
