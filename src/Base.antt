-- ===== src/Base.antt =====
-- The names that the other modules share: the libraries', passed on, and those of the children.
mod Tests
mod Lists
mod Int
mod Strings
mod Splitting
mod Lines
pub use Tests.*
unfoldable pub use Lists.{select, count}
pub use Lists.*
unfoldable pub use Int.{◌+ℤ◌, ◌-ℤ◌, ◌*ℤ◌, wrap64, saturate64, quot}
pub use Int.{
  ℤ, pos, negsuc, pos_part, neg_part, sub_ℕ, ◌≤ℤ◌, ◌<ℤ◌, ltb_ℤ, leb_ℤ, eqb_ℤ, Fits64, +ℤ_parts,
  -ℤ_parts, eq_of_parts, ltb_ℤ→lt, ltb_ℤ→ge, int_laws, wrap64_self, saturate64_self,
}
pub use Prim.Native.Nat.{ℕ, zero, suc, ◌+◌, ◌-◌, ◌*◌, ◌/◌, ◌%◌, ◌^◌, ◌≤◌, ◌<◌}
pub use Prim.Native.String.{String}
pub use mathlib.Core.Path.{◌≡◌, refl, sym, ap, ◌∙◌}
pub use mathlib.Core.Logic.{◌≢◌, ◌↔◌, ◌⊎◌, inl, inr}
pub use mathlib.Core.Bool.{Bool, true, false, ◌&&◌, ◌||◌, not}
pub use mathlib.Core.Option.{Option, none, some}
pub use mathlib.Core.List.{List, [], ◌∷◌, ◌++◌, map, append-nil, append_assoc}
pub use native.Mathlib.Omega.{arith}
unfoldable pub use native.Mathlib.Decide.{dec_lt, ℕ_discrete}
pub use text.Mathlib.Text.{◌==◌ as str_eq}
pub use text.Mathlib.TextEquality.{eq_iff as str_eq_iff}
unfoldable pub use Strings.{
  is_empty, same_text, has_prefix, has_suffix, trim_prefix, index, contains, split_loop, split,
  join, fields_loop, fields, is_space, trim_left, trim_right, trim, digits, atoi, to_lower,
}
pub use Strings.{Text, codes, later, is_some, is_digit, digits_of, same_text_refl, same_text-eq}
pub use Splitting.*
unfoldable pub use Lines.{pieces}
pub use Lines.{longer, split-pieces, pieces-append, pieces-Without, join-pieces, pieces-join}
