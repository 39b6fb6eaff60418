-- ===== src/Prelude.antt =====
-- The names that the other modules share: the libraries', passed on, and those of the children.
mod Tests
mod Int
mod Text
mod Error
mod Procedure
mod Rows
mod Every
mod Pairs
pub use Tests.*
pub use Int.{ℤ, pos, negsuc, pos_part, neg_part, ltb_ℤ, leb_ℤ, eq_ℤ, ◌+ℤ◌, ◌≤ℤ◌, ◌<ℤ◌, wrap64-pos}
unfoldable pub use Int.{wrap64}
unfoldable pub use Text.{
  is_space, is_blank, trim_space, byte_length, has_suffix, trim_suffix, trim_of,
}
pub use Text.{has_suffix_iff}
pub use Error.{Sentinel, Err, message}
unfoldable pub use Error.{is_error, has_permanent}
pub use Procedure.*
pub use Rows.*
pub use Every.*
pub use Pairs.*
unfoldable pub use Rows.{select_where, first_where, count_where, update_where, insert_by, order_by}
pub use Prim.Native.Nat.{ℕ, zero, suc, ◌+◌, ◌-◌, ◌*◌, ◌%◌, ◌/◌, ◌^◌, ◌≤◌, ◌<◌, min}
pub use Prim.Native.String.{String}
pub use mathlib.Core.Path.{◌≡◌, refl, sym, ap, ◌∙◌}
pub use mathlib.Core.Logic.{◌≢◌, ◌↔◌, ◌⊎◌, inl, inr}
pub use mathlib.Core.Bool.{Bool, true, false, ◌&&◌, ◌||◌, not}
pub use mathlib.Core.Option.{Option, none, some}
pub use mathlib.Core.List.{List, [], ◌∷◌, ◌++◌, map}
pub use native.Mathlib.Omega.{arith}
pub use text.Mathlib.Text.{◌==◌ as str_eq}
pub use text.Mathlib.TextEquality.{eq_iff}
