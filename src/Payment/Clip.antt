-- ===== src/Payment/Clip.antt =====
-- `clip` of internal/pkg/payment/sepay.go: cutting a text to a column's width in bytes.
use koviobe.Base.{
  ℕ, ◌+◌, ◌-◌, ◌≤◌, ◌≡◌, refl, Text, [], ◌∷◌, ◌++◌, reverse, ltb, leb, if◌then◌else◌, rune_len,
  byte_len, arith, ap, sym, ◌∙◌, Bool-cases, inl, inr,
}
use mathlib.Core.List.{reverse-cons, reverse-reverse}

-- `for len(string(r)) > n { r = r[:len(r)-1] }`, over the runes from the last.
shrink : ℕ → Text → Text
shrink n [] = []
shrink n (c ∷ r) = let rest = shrink n r in if ltb n (byte_len (c ∷ r)) then rest else c ∷ r

unfoldable pub clip : Text → ℕ → Text
unfolding shrink
clip s n = if leb (byte_len s) n then s else reverse (shrink n (reverse s))

-- The specification: as many runes from the front as fit.
pub fit : ℕ → Text → Text
fit n [] = []
fit n (c ∷ s) = let rest = c ∷ fit (n - rune_len c) s in if leb (rune_len c) n then rest else []

byte_len-append : (s t : Text) → byte_len (s ++ t) ≡ byte_len s + byte_len t
unfolding byte_len
byte_len-append [] t = omega arith
byte_len-append (c ∷ s) t = omega (arith, byte_len-append s t)

byte_len-reverse : (s : Text) → byte_len (reverse s) ≡ byte_len s
unfolding byte_len
byte_len-reverse [] = refl
byte_len-reverse (c ∷ s) =
    rw reverse-cons (omega (arith, byte_len-append (reverse s) (c ∷ []), byte_len-reverse s))

rune_len_pos : (c : ℕ) → 1 ≤ rune_len c
unfolding rune_len
rune_len_pos c = ground arith

fit_all : (n : ℕ) (s : Text) → byte_len s ≤ n → fit n s ≡ s
unfolding fit byte_len
fit_all n [] h = refl
fit_all n (c ∷ s) h = ground (arith, fit_all (n - rune_len c) s)

-- The last rune matters only where the whole text fits.
fit-append_last :
    (n : ℕ) (s : Text) (c : ℕ) → n + 1 ≤ byte_len (s ++ c ∷ []) → fit n (s ++ c ∷ []) ≡ fit n s
unfolding fit byte_len
fit-append_last n [] c h = ground arith
fit-append_last n (d ∷ s) c h = ground (arith, fit-append_last (n - rune_len d) s c)

reverse-shrink : (n : ℕ) (r : Text) → reverse (shrink n r) ≡ fit n (reverse r)
unfolding shrink
reverse-shrink n [] = unfold fit in refl
reverse-shrink n (c ∷ r) = elim (Bool-cases (ltb n (byte_len (c ∷ r)))) [
  | inl long ↦
      rw (long, reverse-cons)
        (reverse-shrink n r ∙ sym (fit-append_last n (reverse r) c (ground (arith, long, size))))
  | inr fits ↦
      rw fits (sym (fit_all n (reverse (c ∷ r)) (ground (arith, fits, byte_len-reverse (c ∷ r)))))
]
  where
    size : byte_len (reverse r ++ c ∷ []) ≡ byte_len (c ∷ r)
    size = rw (← reverse-cons) (byte_len-reverse (c ∷ r))

fit_le : (n : ℕ) (s : Text) → byte_len (fit n s) ≤ n
unfolding fit byte_len
fit_le n [] = omega arith
fit_le n (c ∷ s) = ground (arith, fit_le (n - rune_len c) s)

-- Cutting keeps as many whole runes from the front as the column has room for.
pub clip-fit : (s : Text) (n : ℕ) → clip s n ≡ fit n s
unfolding clip
clip-fit s n = elim (Bool-cases (leb (byte_len s) n)) [
  | inl short ↦ rw short (sym (fit_all n s (ground arith)))
  | inr long ↦ rw long (reverse-shrink n (reverse s) ∙ ap (fit n) (reverse-reverse s))
]

-- What `clip` returns fits in the column.
pub clip_le : (s : Text) (n : ℕ) → byte_len (clip s n) ≤ n
clip_le s n = rw (clip-fit s n) (fit_le n s)
