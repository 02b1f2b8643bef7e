-- ===== src/Base/Strings.antt =====
-- Texts as lists of code points, and the parts of Go's strings and unicode packages that the code
-- calls on them. Upper and lower case are exact wherever the result is ASCII; a code point whose
-- other case lies outside ASCII is left alone, and no code, status or alphabet holds one.
use Prim.Native.Char.{code}
use Prim.Native.String.{String}
use Prim.Native.Nat.{ℕ, ◌+◌, ◌-◌}
use mathlib.Core.Path.{◌≡◌, refl}
use mathlib.Core.Logic.{◌↔◌}
use mathlib.Core.Bool.{Bool, true, false, ◌&&◌, ◌||◌}
use mathlib.Core.List.{List, [], ◌∷◌, ◌++◌, map, reverse}
use mathlib.Core.List.{reverse-cons, reverse-reverse}
use mathlib.Core.Option.{Option, none, some}
use native.Mathlib.Omega.{arith}
use koviobe.Base.Tests.{ltb, leb, ◌==◌, if◌then◌else◌}

abbrev pub Text : Type 0
Text = List ℕ

abbrev pub codes : String → Text
codes String.[] = []
codes (String.◌∷◌ c s) = code c ∷ codes s

unfoldable pub text_eq : Text → Text → Bool
text_eq [] [] = true
text_eq [] (_ ∷ _) = false
text_eq (_ ∷ _) [] = false
text_eq (x ∷ xs) (y ∷ ys) = x == y && text_eq xs ys

pub text_eq_iff : (s t : Text) → (text_eq s t ≡ true) ↔ (s ≡ t)
unfolding text_eq
text_eq_iff [] [] = ground arith
text_eq_iff [] (y ∷ ys) = ground arith
text_eq_iff (x ∷ xs) [] = ground arith
text_eq_iff (x ∷ xs) (y ∷ ys) = ground (arith, text_eq_iff xs ys)

abbrev pub is_empty : Text → Bool
is_empty [] = true
is_empty (_ ∷ _) = false

-- unicode.IsSpace.
unfoldable pub is_space : ℕ → Bool
is_space c =
    leb 9 c && leb c 13
    || c == 0x20
    || c == 0x85
    || c == 0xa0
    || c == 0x1680
    || leb 0x2000 c && leb c 0x200a
    || c == 0x2028
    || c == 0x2029
    || c == 0x202f
    || c == 0x205f
    || c == 0x3000

-- unicode.ToUpper: dotless i and long s are the two letters with an ASCII upper case.
unfoldable pub to_upper : ℕ → ℕ
to_upper c =
    if leb b'a' c && leb c b'z'
    then c - 32
    else if c == 0x131
    then b'I'
    else if c == 0x17f
    then b'S'
    else c

-- unicode.ToLower: dotted I and the Kelvin sign are the two letters with an ASCII lower case.
unfoldable pub to_lower : ℕ → ℕ
to_lower c =
    if leb b'A' c && leb c b'Z'
    then c + 32
    else if c == 0x130
    then b'i'
    else if c == 0x212a
    then b'k'
    else c

abbrev pub upper : Text → Text
upper = map to_upper

abbrev pub lower : Text → Text
lower = map to_lower

unfoldable pub trim_left : Text → Text
trim_left [] = []
trim_left (c ∷ s) = let rest = trim_left s in if is_space c then rest else c ∷ s

-- strings.TrimSpace.
unfoldable pub trim_space : Text → Text
unfolding trim_left
trim_space s = reverse (trim_left (reverse (trim_left s)))

-- The number of bytes of a code point in UTF-8, and of a text: Go's `len`.
unfoldable pub rune_len : ℕ → ℕ
rune_len c = if ltb c 0x80 then 1 else if ltb c 0x800 then 2 else if ltb c 0x10000 then 3 else 4

unfoldable pub byte_len : Text → ℕ
byte_len [] = 0
byte_len (c ∷ s) = rune_len c + byte_len s

unfoldable pub keep : (ℕ → Bool) → Text → Text
keep p [] = []
keep p (c ∷ s) = let rest = keep p s in if p c then c ∷ rest else rest

-- What follows a prefix, if the text starts with it.
unfoldable pub strip_prefix : Text → Text → Option Text
strip_prefix [] t = some t
strip_prefix (_ ∷ _) [] = none
strip_prefix (x ∷ xs) (y ∷ t) = let rest = strip_prefix xs t in if x == y then rest else none

-- strings.TrimPrefix.
unfoldable pub trim_prefix : Text → Text → Text
trim_prefix p s = elim (strip_prefix p s) [ none ↦ s | some rest ↦ rest ]

-- A text with no space in it is its own trimmed form.
abbrev pub Visible : Text → Type 0
Visible [] = Unit {0}
Visible (c ∷ s) = (is_space c ≡ false) × Visible s

pub Visible-append : (s t : Text) → Visible s → Visible t → Visible (s ++ t)
Visible-append [] t h k = k
Visible-append (c ∷ s) t (h, hs) k = (h, Visible-append s t hs k)

Visible-reverse : (s : Text) → Visible s → Visible (reverse s)
Visible-reverse [] h = tt
Visible-reverse (c ∷ s) (h, hs) =
    rw reverse-cons (Visible-append (reverse s) (c ∷ []) (Visible-reverse s hs) (h, tt))

trim_left-Visible : (s : Text) → Visible s → trim_left s ≡ s
unfolding trim_left
trim_left-Visible [] h = refl
trim_left-Visible (c ∷ s) (h, _) = ground (arith, h)

pub trim_space-Visible : (s : Text) → Visible s → trim_space s ≡ s
unfolding trim_space
trim_space-Visible s h =
    rw (trim_left-Visible s h, trim_left-Visible (reverse s) (Visible-reverse s h))
      (reverse-reverse s)
