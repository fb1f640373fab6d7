-- ===== src/Base.antt =====
-- The names that the other modules share: the libraries', passed on, and those of the children.
-- The children model what the source takes from the C++ standard library: tests on unsigned
-- integers, std::vector, std::unordered_map and std::unordered_set.
mod Tests
mod Lists
mod Maps
mod IdSets
mod Slices
pub mod Bits
pub mod Options
pub mod Arrays
pub use Tests.*
unfoldable pub use Lists.{length, contains}
unfoldable pub use Slices.{take, drop}
pub use Slices.{
  length-take, length-drop, drop-length, drop-drop, take-append-drop, take-split, append_assoc,
  append_nil, append-split,
}
pub use Lists.{length-append, contains-append}
unfoldable pub use Maps.{Map, Option-is_some, find, insert_or_assign, erase, keys}
pub use Maps.{find-insert_or_assign, find-erase, contains-keys}
unfoldable pub use IdSets.{add_id, remove_id, is_empty}
pub use IdSets.{contains-add_id, contains-remove_id, is_empty_of_contains, not-is_empty_of_contains}
pub use Prim.Native.Nat.{ℕ, zero, suc, ◌+◌, ◌-◌, ◌*◌, ◌/◌, ◌%◌, ◌^◌, ◌≤◌, ◌<◌}
pub use mathlib.Core.Path.{◌≡◌, refl, sym, ap, subst, ◌∙◌}
pub use mathlib.Core.Logic.{◌≢◌, ◌↔◌, ◌⊎◌, inl, inr}
pub use mathlib.Core.Bool.{Bool, true, false, ◌&&◌, ◌||◌, not}
pub use mathlib.Core.Option.{Option, none, some}
pub use mathlib.Core.List.{List, [], ◌∷◌, ◌++◌, map}
pub use native.Mathlib.Omega.{arith}
