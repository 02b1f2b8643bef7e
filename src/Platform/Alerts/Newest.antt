-- ===== src/Platform/Alerts/Newest.antt =====
-- The ring buffer keeps the newest alerts, and Recent returns them newest first.
use koviobe.Base.{
  ℕ, zero, suc, ◌-◌, ◌≤◌, ◌≡◌, ◌∙◌, ap, sym, inl, inr, refl, arith, some, List, [], ◌∷◌, ◌++◌,
  length, take, drop, ltb, reverse, reverse-cons, append_assoc, if◌then◌else◌, Bool-cases,
  length-append,
}
use mathlib.Core.List.{append-nil}
use koviobe.Platform.Alerts.{
  Alert, Control, recent_cap, remember, recent_alerts, with_element, read_back, element_at,
}

drop-append :
    (n : ℕ) (xs : List Alert) (y : Alert)
    → n ≤ length xs
    → drop n (xs ++ y ∷ []) ≡ drop n xs ++ y ∷ []
drop-append zero xs y h = refl
drop-append (suc n) [] y h = absurd (omega arith)
drop-append (suc n) (x ∷ xs) y h = drop-append n xs y (omega arith)

drop-all : (xs : List Alert) → drop (length xs) xs ≡ []
drop-all [] = refl
drop-all (x ∷ xs) = drop-all xs

length-reverse : (xs : List Alert) → length (reverse xs) ≡ length xs
length-reverse [] = refl
length-reverse (x ∷ xs) =
    rw reverse-cons (omega (arith, length-append (reverse xs) (x ∷ []), length-reverse xs))

element_at-last : (xs : List Alert) (y : Alert) → element_at (xs ++ y ∷ []) (length xs) ≡ some y
unfolding element_at
element_at-last [] y = refl
element_at-last (x ∷ xs) y = element_at-last xs y

element_at-append :
    (i : ℕ) (xs : List Alert) (y : Alert)
    → suc i ≤ length xs
    → element_at (xs ++ y ∷ []) i ≡ element_at xs i
unfolding element_at
element_at-append i [] y h = absurd (omega arith)
element_at-append zero (x ∷ xs) y h = refl
element_at-append (suc i) (x ∷ xs) y h = element_at-append i xs y (omega arith)

read_back-append :
    (k i : ℕ) (xs : List Alert) (y : Alert)
    → i ≤ length xs
    → read_back (xs ++ y ∷ []) k i ≡ read_back xs k i
unfolding read_back
read_back-append zero i xs y h = refl
read_back-append (suc k) zero xs y h = refl
read_back-append (suc k) (suc i) xs y h =
    rw (element_at-append i xs y h, read_back-append k i xs y (omega arith)) refl

-- Reading a buffer back from its end is reading its reverse.
read_back-take : (k : ℕ) (xs : List Alert) → read_back (reverse xs) k (length xs) ≡ take k xs
unfolding read_back
read_back-take zero xs = refl
read_back-take (suc k) [] = refl
read_back-take (suc k) (x ∷ xs) =
    let there : element_at (reverse (x ∷ xs)) (length xs) ≡ some x =
      rw (reverse-cons x xs, sym (length-reverse xs)) (element_at-last (reverse xs) x) in
    let rest : read_back (reverse (x ∷ xs)) k (length xs) ≡ take k xs = rw (reverse-cons x xs) (
      read_back-append k (length xs) (reverse xs) x (omega (arith, length-reverse xs))
      ∙ read_back-take k xs) in
    ap (λ v. with_element v (read_back (reverse (x ∷ xs)) k (length xs))) there
    ∙ ap (λ ys. x ∷ ys) rest

drop-reverse : (n : ℕ) (xs : List Alert) → drop (length xs - n) (reverse xs) ≡ reverse (take n xs)
drop-reverse zero xs =
    let whole : length xs - 0 ≡ length (reverse xs) = omega (arith, length-reverse xs) in
    rw whole (drop-all (reverse xs))
drop-reverse (suc n) [] = let none_left : 0 - suc n ≡ 0 = omega arith in rw none_left refl
drop-reverse (suc n) (x ∷ xs) =
    let short : suc (length xs) - suc n ≡ length xs - n = omega arith in
    rw (short, reverse-cons x xs, reverse-cons x (take n xs))
      (drop-append (length xs - n) (reverse xs) x (omega (arith, length-reverse xs))
        ∙ ap (λ ys. ys ++ x ∷ []) (drop-reverse n xs))

take-take : (m n : ℕ) (xs : List Alert) → m ≤ n → take m (take n xs) ≡ take m xs
take-take zero n xs h = refl
take-take (suc m) zero xs h = absurd (omega arith)
take-take (suc m) (suc n) [] h = refl
take-take (suc m) (suc n) (x ∷ xs) h = ap (λ ys. x ∷ ys) (take-take m n xs (omega arith))

take-all : (n : ℕ) (xs : List Alert) → length xs ≤ n → take n xs ≡ xs
take-all zero [] h = refl
take-all zero (x ∷ xs) h = absurd (omega arith)
take-all (suc n) [] h = refl
take-all (suc n) (x ∷ xs) h = ap (λ ys. x ∷ ys) (take-all n xs (omega arith))

-- The whole of the buffer is the newest alerts, however the last one came in.
trimmed-reverse :
    (n : ℕ) (xs : List Alert)
    → (if ltb n (length (reverse xs))
        then drop (length (reverse xs) - n) (reverse xs)
        else reverse xs)
      ≡ reverse (take n xs)
trimmed-reverse n xs = elim (Bool-cases (ltb n (length (reverse xs)))) [
  | inl over ↦ rw (over, length-reverse xs) (drop-reverse n xs)
  | inr within ↦
      rw within (ap reverse (sym (take-all n xs (ground (arith, within, length-reverse xs)))))
]

remember-kept :
    (r : Alert) (c : Control) (news : List Alert)
    → c.recent ≡ reverse (take recent_cap news)
    → (remember r c).recent ≡ reverse (take recent_cap (r ∷ news))
unfolding remember
remember-kept r c news e =
    let pushed : c.recent ++ r ∷ [] ≡ reverse (r ∷ take recent_cap news) =
      rw e (sym (reverse-cons r (take recent_cap news))) in
    rw pushed (
      trimmed-reverse recent_cap (r ∷ take recent_cap news)
      ∙ ap (λ ys. reverse (r ∷ ys)) (take-take 24 recent_cap news (omega arith)))

-- Alerts remembered one after another, the oldest first.
pub remember_all : List Alert → Control → Control
remember_all [] c = c
remember_all (r ∷ rs) c = remember_all rs (remember r c)

remember_all-kept :
    (rs : List Alert) (c : Control) (news : List Alert)
    → c.recent ≡ reverse (take recent_cap news)
    → (remember_all rs c).recent ≡ reverse (take recent_cap (reverse rs ++ news))
unfolding remember_all
remember_all-kept [] c news e = e
remember_all-kept (r ∷ rs) c news e =
    let order : reverse (r ∷ rs) ++ news ≡ reverse rs ++ (r ∷ news) =
      rw reverse-cons (append_assoc (reverse rs) (r ∷ []) news) in
    rw order (remember_all-kept rs (remember r c) (r ∷ news) (remember-kept r c news e))

recent_alerts-reverse :
    (n : ℕ) (c : Control) (ys : List Alert) → c.recent ≡ reverse ys → recent_alerts n c ≡ take n ys
unfolding recent_alerts
recent_alerts-reverse n c ys e = elim (Bool-cases (ltb (length ys) n)) [
  | inl more ↦
      rw (e, length-reverse ys, more)
        (read_back-take (length ys) ys
          ∙ take-all (length ys) ys (omega arith)
          ∙ sym (take-all n ys (ground (arith, more))))
  | inr less ↦ rw (e, length-reverse ys, less) (read_back-take n ys)
]

-- Recent returns the newest alerts, the newest first: of all that were remembered since the buffer was
-- empty, in order, the last n, and at most the last 25.
pub recent_alerts-newest :
    (n : ℕ) (rs : List Alert) (c : Control)
    → c.recent ≡ []
    → recent_alerts n (remember_all rs c) ≡ take n (take recent_cap (reverse rs))
recent_alerts-newest n rs c e =
    recent_alerts-reverse n (remember_all rs c) (take recent_cap (reverse rs)) (
      remember_all-kept rs c [] e
      ∙ ap (λ ys. reverse (take recent_cap ys)) (append-nil (reverse rs)))
