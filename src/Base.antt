-- ===== src/Base.antt =====
-- The names that the other modules share: the libraries', passed on, and those of the children.
mod Tests
mod Lists
mod Outcome
mod Time
mod Texts
mod Sorting
pub mod Int
pub use Tests.*
pub use Lists.*
pub use Outcome.*
pub use Time.*
pub use Texts.{Text, text_eq, text_eq_refl, text_eq_sound, ◌⊕◌, is_less}
unfoldable pub use Texts.{text_compare}
pub use Sorting.{sorted-Perm, sorted-empty, sorted-All}
unfoldable pub use Sorting.{insert, sorted}
pub use Prim.Native.Nat.{
  ℕ, Ordering, compare, zero, suc, ◌+◌, ◌-◌, ◌*◌, ◌/◌, ◌%◌, ◌^◌, ◌≤◌, ◌<◌, min, max,
}
pub use Prim.Native.String.{String}
pub use mathlib.Core.Path.{◌≡◌, refl, sym, ap, ap₂, subst, ◌∙◌}
pub use mathlib.Core.Logic.{◌≢◌, ◌↔◌, ◌⊎◌, inl, inr}
pub use mathlib.Core.Bool.{Bool, true, false, ◌&&◌, ◌||◌, not}
pub use mathlib.Core.Option.{Option, none, some}
pub use mathlib.Core.List.{List, [], ◌∷◌, ◌++◌, map}
pub use native.Mathlib.Omega.{arith}
pub use text.Mathlib.Text.{◌==◌ as str_eq}
pub use text.Mathlib.TextEquality.{eq_iff}
