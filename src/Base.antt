-- ===== src/Base.antt =====
-- The names that every component shares: the libraries', passed on, and those of the children.
mod Tests
mod Lists
mod Strings
mod Effects
mod Decimal
pub mod Floats
pub mod Rows
pub mod Rounding
pub use Tests.*
pub use Effects.*
pub use Lists.{length, take, drop, get_or, length-append, length-take-le, find_sound}
pub use Lists.{length-update_where, find-update_where, count-append, find-count}
unfoldable pub use Lists.{find, count, select, update_where}
pub use Strings.{
  Text, codes, text_eq_iff, Visible, Visible-append, trim_space-Visible, is_empty, upper, lower,
}
unfoldable pub use Strings.{text_eq, is_space, to_upper, to_lower, trim_left, trim_space}
unfoldable pub use Strings.{rune_len, byte_len, keep, strip_prefix, trim_prefix}
pub use Prim.Native.Nat.{ℕ, zero, suc, ◌+◌, ◌-◌, ◌*◌, ◌/◌, ◌%◌, ◌^◌, ◌≤◌, ◌<◌}
pub use mathlib.Core.Path.{◌≡◌, refl, sym, ap, ◌∙◌}
pub use mathlib.Core.Logic.{◌≢◌, ◌↔◌, ◌⊎◌, inl, inr}
pub use mathlib.Core.Bool.{Bool, true, false, not, ◌&&◌, ◌||◌}
pub use mathlib.Core.Option.{Option, none, some}
pub use mathlib.Core.List.{List, [], ◌∷◌, ◌++◌, map, reverse, reverse-cons, append_assoc}
pub use native.Mathlib.Omega.{arith}
pub use Decimal.{
  is_digit, Every, to_decimal-Every, parse_unsigned, in_range, parse_digits-to_decimal,
  to_decimal-head,
}
pub use Decimal.{parse_int-to_decimal}
unfoldable pub use Decimal.{to_decimal, itoa, parse_digits, parse_int}
