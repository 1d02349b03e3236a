-- ===== src/Prelude.antt =====
-- The names that every module shares: the libraries', passed on, and those of the children.
mod Tests
mod Lists
mod Strings
mod Logic
mod Affixes
mod Preds
mod Sorting
pub mod Members
pub mod Upsert
pub use Tests.*
pub use Lists.*
pub use Strings.*
pub use Logic.*
pub use Affixes.*
pub use Preds.*
pub use Sorting.*
unfoldable pub use Strings.{
  text_eq, has_prefix, has_suffix, trim_suffix, drop_prefix, is_space, trim_left, trim_space,
  contains_any, fold, equal_fold, to_lower, text_le,
}
unfoldable pub use Lists.{any, all, insert_by, order_by}
pub use Prim.Native.Nat.{ℕ, zero, suc, ◌+◌, ◌-◌, ◌*◌, ◌/◌, ◌%◌, ◌^◌, ◌≤◌, ◌<◌}
pub use Prim.Native.String.{String}
pub use mathlib.Core.Path.{◌≡◌, refl, sym, ap, ◌∙◌}
pub use mathlib.Core.Logic.{◌≢◌, ◌↔◌, ◌⊎◌, inl, inr}
pub use mathlib.Core.Bool.{Bool, true, false, not, ◌&&◌, ◌||◌}
pub use mathlib.Core.Option.{Option, none, some}
pub use mathlib.Core.List.{List, [], ◌∷◌, ◌++◌, map, reverse}
pub use native.Mathlib.Omega.{arith}
