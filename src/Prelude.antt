-- ===== src/Prelude.antt =====
-- The names that the other modules share: the libraries', passed on, and those of its children.
mod Tests
mod Lists
mod Dicts
mod Results
mod Strings
mod Sets
pub use Tests.*
pub use Lists.*
pub use Dicts.*
unfoldable pub use Dicts.{lookup}
unfoldable pub use Lists.{take}
pub use Results.*
pub use Strings.*
pub use Sets.*
unfoldable pub use Sets.{text_lt, set_add, set_update}
unfoldable pub use Strings.{
  text_eq, contains, starts_with, lstrip, rstrip, has, split, split_commas, strip_left, strip_right,
  is_ascii, compare_digest,
}
pub use Prim.Native.Nat.{ℕ, zero, suc, ◌+◌, ◌-◌, ◌*◌, ◌/◌, ◌%◌, ◌^◌, ◌≤◌, ◌<◌, min}
pub use Prim.Native.String.{String}
pub use mathlib.Core.Path.{◌≡◌, refl, sym, ap, ◌∙◌}
pub use mathlib.Core.Logic.{◌≢◌, ◌↔◌, ◌⊎◌, inl, inr}
pub use mathlib.Core.Bool.{Bool, true, false, not, ◌&&◌, ◌||◌}
pub use mathlib.Core.Option.{Option, none, some}
pub use mathlib.Core.List.{List, [], ◌∷◌, ◌++◌, map}
pub use native.Mathlib.Omega.{arith}
