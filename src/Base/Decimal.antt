-- ===== src/Base/Decimal.antt =====
-- strconv: decimal text of numbers, and ParseInt in base 10 for 64 bits.
use Prim.Native.Nat.{ℕ, zero, suc, ◌+◌, ◌-◌, ◌*◌, ◌/◌, ◌%◌, ◌^◌, ◌<◌}
use mathlib.Core.Path.{◌≡◌}
use mathlib.Core.Logic.{inl, inr}
use mathlib.Core.Bool.{Bool, true, false, ◌&&◌}
use mathlib.Core.List.{[], ◌∷◌}
use mathlib.Core.Option.{Option, none, some}
use native.Mathlib.Omega.{arith}
use koviobe.Base.Tests.{ltb, leb, ◌==◌, if◌then◌else◌, Bool-cases, word}
use koviobe.Base.Strings.{Text}

abbrev pub is_digit : ℕ → Bool
is_digit c = leb b'0' c && leb c b'9'

dec_loop : ℕ → ℕ → Text → Text
dec_loop zero n acc = acc
dec_loop (suc f) n acc = elim (ltb n 10) [
  | true ↦ (n + 48) ∷ acc
  | false ↦ dec_loop f (n / 10) ((n % 10 + 48) ∷ acc)
]

-- strconv.Itoa of a number that is not negative; a number has fewer digits than itself and one.
unfoldable pub to_decimal : ℕ → Text
unfolding dec_loop
to_decimal n = dec_loop (suc n) n []

-- strconv.Itoa of a 64-bit pattern.
unfoldable pub itoa : ℕ → Text
itoa n = if ltb n (2 ^ 63) then to_decimal n else b'-' ∷ to_decimal (word - n)

unfoldable pub parse_digits : ℕ → Text → Option ℕ
parse_digits acc [] = some acc
parse_digits acc (c ∷ s) =
    let rest = parse_digits (acc * 10 + (c - 48)) s in if is_digit c then rest else none

abbrev pub parse_unsigned : Text → Option ℕ
parse_unsigned [] = none
parse_unsigned (c ∷ s) = parse_digits 0 (c ∷ s)

-- A magnitude under a sign, as a 64-bit pattern, where it is in range.
abbrev pub in_range : Bool → Option ℕ → Option ℕ
in_range minus none = none
in_range false (some n) = if ltb n (2 ^ 63) then some n else none
in_range true (some n) = if leb n (2 ^ 63) then some ((word - n) % word) else none

unfoldable pub parse_int : Text → Option ℕ
parse_int [] = none
parse_int (c ∷ s) =
    if c == b'-'
    then in_range true (parse_unsigned s)
    else if c == b'+'
    then in_range false (parse_unsigned s)
    else in_range false (parse_unsigned (c ∷ s))

parse_digits-dec_loop :
    (f n : ℕ) (acc : Text) → n < f → parse_digits 0 (dec_loop f n acc) ≡ parse_digits n acc
unfolding dec_loop parse_digits
parse_digits-dec_loop zero n acc h = absurd (omega arith)
parse_digits-dec_loop (suc f) n acc h = elim (Bool-cases (ltb n 10)) [
  | inl small ↦ ground (arith, small)
  | inr large ↦ ground (arith, large, parse_digits-dec_loop f (n / 10) ((n % 10 + 48) ∷ acc))
]

-- Digits are read back, also in front of more of them.
pub parse_digits-to_decimal : (n : ℕ) → parse_digits 0 (to_decimal n) ≡ some n
unfolding to_decimal parse_digits
parse_digits-to_decimal n = parse_digits-dec_loop (suc n) n [] (omega arith)

-- Every character of the text passes the test.
abbrev pub Every : (ℕ → Bool) → Text → Type 0
Every p [] = Unit {0}
Every p (c ∷ s) = (p c ≡ true) × Every p s

dec_loop-Every :
    (f n : ℕ) (acc : Text) → n < f → Every is_digit acc → Every is_digit (dec_loop f n acc)
unfolding dec_loop
dec_loop-Every zero n acc h d = absurd (omega arith)
dec_loop-Every (suc f) n acc h d = elim (Bool-cases (ltb n 10)) [
  | inl small ↦ rw (small, dec_loop) (ground (arith, small), d)
  | inr large ↦
      rw (large, dec_loop)
        (dec_loop-Every f (n / 10) ((n % 10 + 48) ∷ acc) (ground (arith, large)) (ground arith, d))
]

pub to_decimal-Every : (n : ℕ) → Every is_digit (to_decimal n)
unfolding to_decimal
to_decimal-Every n = dec_loop-Every (suc n) n [] (omega arith) tt

dec_loop-head :
    (f n : ℕ) (acc : Text)
    → n < f
    → (c : ℕ) × (s : Text) × (dec_loop f n acc ≡ c ∷ s) × (is_digit c ≡ true)
unfolding dec_loop
dec_loop-head zero n acc h = absurd (omega arith)
dec_loop-head (suc f) n acc h = elim (Bool-cases (ltb n 10)) [
  | inl small ↦ (n + 48, acc, rw (small, dec_loop), ground (arith, small))
  | inr large ↦
      rw (large, dec_loop) (dec_loop-head f (n / 10) ((n % 10 + 48) ∷ acc) (ground (arith, large)))
]

pub to_decimal-head : (n : ℕ) → (c : ℕ) × (s : Text) × (to_decimal n ≡ c ∷ s) × (is_digit c ≡ true)
unfolding to_decimal
to_decimal-head n = dec_loop-head (suc n) n [] (omega arith)

-- ParseInt reads back what Itoa prints of any int64 that is not negative.
pub parse_int-to_decimal : (n : ℕ) → n < 2 ^ 63 → parse_int (to_decimal n) ≡ some n
unfolding parse_int
parse_int-to_decimal n h =
    let (c, s, e, d) = to_decimal-head n in
    let back : parse_digits 0 (c ∷ s) ≡ some n = rw (← e) (parse_digits-to_decimal n) in
    rw e (ground (arith, back, d))
