-- ===== src/Base/Rows.antt =====
-- What holds of every row of a table, and how a search meets the statements that change rows.
use mathlib.Core.Path.{◌≡◌, refl}
use mathlib.Core.Bool.{Bool, true}
use mathlib.Core.List.{List, [], ◌∷◌}
use mathlib.Core.Option.{none, some}
use native.Mathlib.Omega.{arith}
use mathlib.Core.Logic.{inl, inr}
use koviobe.Base.Tests.{if◌then◌else◌, Bool-cases}
use koviobe.Base.Lists.{find, select, update_where}

module _ {A : Type 0} where
  abbrev pub All : (A → Type 0) → List A → Type 0
  All P [] = Unit {0}
  All P (x ∷ xs) = P x × All P xs

  pub All-map : (P Q : A → Type 0) → ((x : A) → P x → Q x) → (xs : List A) → All P xs → All Q xs
  All-map P Q h [] a = tt
  All-map P Q h (x ∷ xs) (p, a) = (h x p, All-map P Q h xs a)

  pub All-update_where :
      (P Q : A → Type 0) (q : A → Bool) (f : A → A)
      → ((x : A) → P x → Q (if q x then f x else x))
      → (xs : List A) → All P xs
      → All Q (update_where q f xs)
  unfolding update_where
  All-update_where P Q q f h [] a = tt
  All-update_where P Q q f h (x ∷ xs) (p, a) = (h x p, All-update_where P Q q f h xs a)

  pub All-select :
      (P : A → Type 0) (q : A → Bool) (xs : List A)
      → All P xs
      → All (λ x. P x × (q x ≡ true)) (select q xs)
  unfolding select
  All-select P q [] a = tt
  All-select P q (x ∷ xs) (p, a) = elim (Bool-cases (q x)) [
    | inl e ↦ rw (select, e) ((p, e), All-select P q xs a)
    | inr e ↦ rw (select, e) (All-select P q xs a)
  ]

  pub All-find :
      (P : A → Type 0) (q : A → Bool) (xs : List A) (x : A) → All P xs → find q xs ≡ some x → P x
  unfolding find
  All-find P q [] x a h = absurd (ground (arith, h))
  All-find P q (y ∷ xs) x (p, a) h = elim (Bool-cases (q y)) [
    | inl e ↦ let same : x ≡ y = ground (arith, h, e) in rw same p
    | inr e ↦ All-find P q xs x a (ground (arith, h, e))
  ]

  pub find-select :
      (p q : A → Bool) (xs : List A) (x : A)
      → find p xs ≡ some x
      → q x ≡ true
      → find p (select q xs) ≡ some x
  unfolding find select
  find-select p q [] x h k = absurd (ground (arith, h))
  find-select p q (y ∷ xs) x h k = ground (arith, h, k, find-select p q xs x)

  -- A change that the search does not see.
  module _ (p q : A → Bool) (f : A → A) (keep : (x : A) → q x ≡ true → p (f x) ≡ p x) where
    pub find-update_where-none :
        (xs : List A) → find p xs ≡ none → find p (update_where q f xs) ≡ none
    unfolding find update_where
    find-update_where-none [] h = refl
    find-update_where-none (x ∷ xs) h = ground (arith, h, keep x, find-update_where-none xs)

    pub find-update_where-some :
        (xs : List A) (x : A)
        → find p xs ≡ some x
        → find p (update_where q f xs) ≡ some (if q x then f x else x)
    unfolding find update_where
    find-update_where-some [] x h = absurd (ground (arith, h))
    find-update_where-some (y ∷ xs) x h = ground (arith, h, keep y, find-update_where-some xs x)
