-- ===== src/Base.antt =====
-- The names that the other modules share: the libraries', passed on, and those of the children.
pub mod Tests
pub mod Lists
pub mod Strings
pub mod Results
pub mod Table
pub use Tests.*
pub use Lists.*
unfoldable pub use Strings.{
  same, bytes_le, has_prefix, contains_string, trim_left, trim_space, is_blank,
}
pub use Strings.{Bytes, lit, same_refl, same_iff, same_sym, is_empty, has_prefix-append, is_space}
pub use Results.*
unfoldable pub use Table.{same_key, find_row, upsert_row, delete_rows}
pub use Table.{
  same_key_refl, same_key_iff, merged, find_row-upsert_row, key-find_row, IsKeyed,
  IsKeyed-upsert_row, IsKeyed-delete_rows, find_row-delete_rows, any-delete_rows, any-deleted,
  any-upsert_row, any-find_row, find_row-spared, find_row-deleted,
}
pub use Prim.Native.Nat.{ℕ, zero, suc, ◌+◌, ◌-◌, ◌*◌, ◌/◌, ◌%◌, ◌^◌, ◌≤◌, ◌<◌}
pub use mathlib.Core.Path.{◌≡◌, refl, sym, ap, subst, ◌∙◌}
pub use mathlib.Core.Logic.{◌≢◌, ◌↔◌, ◌⊎◌, inl, inr}
pub use mathlib.Core.Bool.{Bool, true, false, not, ◌&&◌, ◌||◌}
pub use mathlib.Core.Option.{Option, none, some}
pub use mathlib.Core.List.{List, [], ◌∷◌, ◌++◌, map, reverse}
pub use native.Mathlib.Omega.{arith}
