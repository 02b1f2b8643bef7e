-- ===== src/Payment/Code.antt =====
-- internal/pkg/payment/code.go: order codes, and finding them in the content of a transfer.
use koviobe.Base.{
  ℕ, zero, suc, Text, Bool, false, ◌||◌, not, Option, none, some, List, [], ◌∷◌, ◌++◌, codes, ◌==◌,
  if◌then◌else◌, is_empty, upper, text_eq, trim_space, is_space, keep, strip_prefix,
}
use koviobe.License.Code.{Reader, random_text}

abbrev pub order_code_prefix : Text
order_code_prefix = codes "KV"

abbrev pub order_alphabet : Text
order_alphabet = codes "23456789ABCDEFGHJKMNPQRSTVWXYZ"

unfoldable pub holds : ℕ → Text → Bool
holds c [] = false
holds c (a ∷ s) = a == c || holds c s

-- NewOrderCode: the prefix and eight random characters.
unfoldable pub new_order_code : Reader → Option Text
new_order_code r = elim (random_text 8 r) [
  | none ↦ none
  | some (s, _) ↦ some (order_code_prefix ++ s)
]

-- `n` characters of the alphabet at the front of a text.
unfoldable pub alphabet_run : ℕ → Text → Option Text
unfolding holds
alphabet_run zero s = some []
alphabet_run (suc n) [] = none
alphabet_run (suc n) (c ∷ s) = elim (alphabet_run n s) [
  | none ↦ none
  | some t ↦ if holds c order_alphabet then some (c ∷ t) else none
]

-- orderCodeRe at the front of a text: KV and eight characters of the alphabet.
unfoldable pub match_code : Text → Option Text
unfolding alphabet_run
match_code s = elim (strip_prefix order_code_prefix s) [
  | none ↦ none
  | some rest ↦ elim (alphabet_run 8 rest) [ none ↦ none | some t ↦ some (order_code_prefix ++ t) ]
]

-- FindAllString: the matches from the left, none overlapping another. The number counts the
-- characters of the last match that are still to be passed over.
unfoldable pub find_all : ℕ → Text → List Text
find_all skip [] = []
find_all (suc skip) (c ∷ s) = find_all skip s
find_all zero (c ∷ s) = elim (match_code (c ∷ s)) [
  | none ↦ find_all zero s
  | some m ↦ m ∷ find_all 9 s
]

-- FindString: the first match, or the empty text.
unfoldable pub find_first : Text → Text
find_first [] = []
find_first (c ∷ s) = elim (match_code (c ∷ s)) [ none ↦ find_first s | some m ↦ m ]

unfoldable pub mem_text : Text → List Text → Bool
mem_text t [] = false
mem_text t (x ∷ xs) = text_eq x t || mem_text t xs

unfoldable pub add_code : List Text → Text → List Text
unfolding mem_text
add_code out c = if is_empty c || mem_text c out then out else out ++ c ∷ []

unfoldable pub add_codes : List Text → List Text → List Text
add_codes out [] = out
add_codes out (c ∷ cs) = add_codes (add_code out c) cs

-- What is dropped before the last pass: spaces, dashes, dots and underscores.
abbrev pub is_kept : ℕ → Bool
is_kept c = not (is_space c || c == b'-' || c == b'.' || c == b'_')

unfoldable pub order_code_candidates : Text → Text → List Text
unfolding add_codes
order_code_candidates detected content =
    let first = add_codes [] (find_first (upper (trim_space detected)) ∷ []) in
    let typed = add_codes first (find_all zero (upper content)) in
    add_codes typed (find_all zero (keep is_kept (upper content)))
