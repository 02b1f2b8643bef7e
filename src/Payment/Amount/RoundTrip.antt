-- ===== src/Payment/Amount/RoundTrip.antt =====
-- SePay's two ways to write an amount are read as the amount.
use koviobe.Base.{
  ℕ, ◌^◌, ◌<◌, ◌≡◌, refl, Text, none, some, [], ◌∷◌, ◌++◌, codes, arith, is_digit, Every, Visible,
  Visible-append, trim_space-Visible, is_space, to_decimal, to_decimal-Every, parse_int-to_decimal,
}
use koviobe.Payment.Amount.{parse_vnd, split_dot}

digits-Visible : (s : Text) → Every is_digit s → Visible s
unfolding is_space
digits-Visible [] h = tt
digits-Visible (c ∷ s) (h, hs) = (ground (arith, h), digits-Visible s hs)

split_dot_digits : (s t : Text) → Every is_digit s → split_dot (s ++ b'.' ∷ t) ≡ (s, some t)
unfolding split_dot
split_dot_digits [] t h = refl
split_dot_digits (c ∷ s) t (h, hs) = ground (arith, h, split_dot_digits s t hs)

split_dot-none : (s : Text) → Every is_digit s → split_dot s ≡ (s, none)
unfolding split_dot
split_dot-none [] h = refl
split_dot-none (c ∷ s) (h, hs) = ground (arith, h, split_dot-none s hs)

-- An amount that fits an int64 is read back from its digits, and from its digits with ".00".
pub parse_vnd-to_decimal :
    (n : ℕ)
    → n < 2 ^ 63
    → (parse_vnd (to_decimal n) ≡ some n) × (parse_vnd (to_decimal n ++ codes ".00") ≡ some n)
unfolding parse_vnd is_space
parse_vnd-to_decimal n h =
    let d = to_decimal-Every n in
    let v = digits-Visible (to_decimal n) d in
    let plain = trim_space-Visible (to_decimal n) v in
    let w : Visible (to_decimal n ++ codes ".00") =
      Visible-append (to_decimal n) (codes ".00") v (refl, (refl, (refl, tt))) in
    let dotted = trim_space-Visible (to_decimal n ++ codes ".00") w in
    let back = parse_int-to_decimal n h in
    (
      ground (arith, plain, split_dot-none (to_decimal n) d, back, h),
      ground (arith, dotted, split_dot_digits (to_decimal n) (codes "00") d, back, h),
    )
