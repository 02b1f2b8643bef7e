-- ===== src/Base/Effects.antt =====
-- Errors as values, and the transaction monad: a store is threaded through, and dropped on an error.
use mathlib.Core.Bool.{Bool, true, false}
use mathlib.Core.Path.{◌≡◌, refl}
use mathlib.Core.Logic.{◌⊎◌, inl, inr}
use mathlib.Core.Option.{Option, none, some}

pub data Result (E A : Type 0) : Type 0 where
  ok : A → Result E A
  err : E → Result E A

abbrev pub Tx : Type 0 → Type 0 → Type 0 → Type 0
Tx E S A = S → Result E (A × S)

infixl 5 ◌>>=◌ ◌>>◌
abbrev pub ◌>>=◌ : {E S A B : Type 0} → Tx E S A → (A → Tx E S B) → Tx E S B
◌>>=◌ m f s = elim (m s) [ ok (a, s') ↦ f a s' | err e ↦ err e ]

abbrev pub ◌>>◌ : {E S B : Type 0} → Tx E S (Unit {0}) → Tx E S B → Tx E S B
m >> k = m >>= λ _. k

abbrev pub return : {E S A : Type 0} → A → Tx E S A
return a s = ok (a, s)

abbrev pub fail : {E S A : Type 0} → E → Tx E S A
fail e s = err e

-- Goes on if the test holds.
abbrev pub guard : {E S : Type 0} → Bool → E → Tx E S (Unit {0})
guard true e s = ok (tt, s)
guard false e s = err e

abbrev pub gets : {E S A : Type 0} → (S → A) → Tx E S A
gets f s = ok (f s, s)

abbrev pub modify : {E S : Type 0} → (S → S) → Tx E S (Unit {0})
modify f s = ok (tt, f s)

abbrev pub or_fail : {E S A : Type 0} → Option A → E → Tx E S A
or_fail (some a) e s = ok (a, s)
or_fail none e s = err e

pub Result-cases :
    {E A : Type 0} (r : Result E A) → ((e : E) × (r ≡ err e)) ⊎ ((a : A) × (r ≡ ok a))
Result-cases (ok a) = inr (a, refl)
Result-cases (err e) = inl (e, refl)
