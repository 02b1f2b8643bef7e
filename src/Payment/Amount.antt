-- ===== src/Payment/Amount.antt =====
-- Amounts as SePay writes them: parseVND of internal/pkg/payment/gateway.go, flexString there, and
-- flexInt of reconcile.go.
pub mod RoundTrip
use koviobe.Base.{
  ℕ, ◌+◌, ◌^◌, ◌<◌, ◌≡◌, refl, Text, Bool, true, false, not, Option, none, some, List, [], ◌∷◌,
  ◌++◌, codes, ◌==◌, if◌then◌else◌, is_empty, text_eq, trim_space, trim_left, is_space, is_digit,
  reverse, is_negative, parse_int, parse_int-to_decimal, to_decimal, arith,
}

-- strings.IndexByte(s, '.') with the text before it and behind it.
unfoldable pub split_dot : Text → Text × Option Text
split_dot [] = ([], none)
split_dot (c ∷ s) =
    let (before, behind) = split_dot s in if c == b'.' then ([], some s) else (c ∷ before, behind)

-- strings.Trim(s, "0") == "".
unfoldable pub all_zeros : Text → Bool
all_zeros [] = true
all_zeros (c ∷ s) = let rest = all_zeros s in if c == b'0' then rest else false

abbrev pub fraction_is_zero : Option Text → Bool
fraction_is_zero none = true
fraction_is_zero (some s) = all_zeros s

abbrev not_negative : Option ℕ → Option ℕ
not_negative none = none
not_negative (some n) = if is_negative n then none else some n

unfoldable pub parse_vnd : Text → Option ℕ
unfolding split_dot all_zeros
parse_vnd raw =
    let (whole, fraction) = split_dot (trim_space raw) in
    if fraction_is_zero fraction then not_negative (parse_int whole) else none

unfoldable pub trim_left_of : ℕ → Text → Text
trim_left_of q [] = []
trim_left_of q (c ∷ s) = let rest = trim_left_of q s in if c == q then rest else c ∷ s

-- strings.Trim(s, `"`).
unfoldable pub trim_quotes : Text → Text
unfolding trim_left_of
trim_quotes s = reverse (trim_left_of b'"' (reverse (trim_left_of b'"' s)))

-- flexString.UnmarshalJSON.
unfoldable pub flex_string : Text → Text
unfolding trim_quotes
flex_string b = let s = trim_space b in if text_eq s (codes "null") then [] else trim_quotes s

-- flexInt.UnmarshalJSON; none is its error.
unfoldable pub flex_int : Text → Option ℕ
unfolding trim_quotes split_dot
flex_int b =
    let s = trim_quotes (trim_space b) in
    if is_empty s
    then some 0
    else if text_eq s (codes "null")
    then some 0
    else parse_int (split_dot s).0
