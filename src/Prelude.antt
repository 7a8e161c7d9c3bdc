-- ===== src/Prelude.antt =====
-- Names that every module shares: the libraries', Boolean tests, and the helpers of the children.
mod Tests
mod Lists
mod StringSet
mod Mapping
mod Sorting
pub use Tests.*
pub use Lists.*
pub use StringSet.*
unfoldable pub use Mapping.{lookup, insert, erase}
unfoldable pub use Sorting.{sorted}
pub use Sorting.{not_after, member-sorted}
pub use Mapping.{
  Dict, keys, contains_key, lookup-insert, lookup-erase, lookup-insert_self, dict_laws,
}
pub use Prim.Native.Nat.{ℕ, zero, suc, ◌+◌, ◌-◌, ◌*◌, ◌/◌, ◌%◌, ◌≤◌, ◌<◌}
pub use Prim.Native.String.{String}
pub use mathlib.Core.Path.{◌≡◌, refl, sym, ap, ◌∙◌, subst}
pub use mathlib.Core.Logic.{◌≢◌, ◌⊎◌, inl, inr, ◌↔◌}
pub use mathlib.Core.Bool.{Bool, true, false, ◌&&◌, ◌||◌, not}
pub use mathlib.Core.Option.{Option, none, some}
pub use mathlib.Core.List.{List, [], ◌∷◌, ◌++◌, map, append-nil, append_assoc}
pub use native.Mathlib.Omega.{arith}
pub use text.Mathlib.Text.{◌==◌}
pub use text.Mathlib.TextEquality.{eq_iff}
pub use text.Mathlib.TextPositions.{eq_refl}
