-- ===== src/Base/Rounding.antt =====
-- Rounding keeps an order: what a float64 bounds, its rounding is bounded by too.
use Prim.Native.Nat.{ℕ, zero, suc, ◌+◌, ◌-◌, ◌*◌, ◌/◌, ◌%◌, ◌^◌, ◌≤◌, ◌<◌}
use mathlib.Core.Path.{ap, sym, ◌≡◌, refl, ◌∙◌}
use mathlib.Core.Logic.{◌⊎◌, inl, inr}
use native.Mathlib.Omega.{arith}
use native.Mathlib.Decide.{dec_le}
use native.Mathlib.Nat.{
  le-div_iff_mul-le, div-add-mod', mul-le-mul_right, mul_assoc, mul_comm, mul-lt-mul_of_pos_right,
  mul-pos, zero-add, suc-add, div-mul-le_self, one-le-pow, add-mul, pow-le-pow_right, two-pow-succ,
  div-le_of_le-mul,
}
use koviobe.Base.Tests.{ltb, Bool-cases}
use koviobe.Base.Floats.{Float, float_one, low_bits, nearest, round, of_nat, float_add, float_mul}

-- `q` has 53 bits above the dropped ones, unless none is dropped.
low_bits_lem :
    (f q : ℕ)
    → q ≤ f
    → (q < 2 ^ 53 * 2 ^ low_bits f q) × ((low_bits f q ≡ 0) ⊎ (2 ^ 52 * 2 ^ low_bits f q ≤ q))
unfolding low_bits
low_bits_lem zero q h = (ground arith, inl refl)
low_bits_lem (suc f) q h = elim (Bool-cases (ltb q (2 ^ 53))) [
  | inl small ↦ rw (low_bits, small) (ground (arith, small), inl refl)
  | inr large ↦
      let big : 2 ^ 53 ≤ q = ground (arith, large) in
      let (below, kept) = low_bits_lem f (q / 2) (omega (arith, big)) in
      let more = two-pow-succ (low_bits f (q / 2)) in
      rw (low_bits, large)
        (
          omega (arith, below, more),
          inr (elim kept [ inl z ↦ rw z (omega (arith, big)) | inr k ↦ omega (arith, k, more) ]),
        )
]

-- A quotient with a whole number `w` above or below it.
nearest_ge : (a d w : ℕ) → 0 < d → w * d ≤ a → w ≤ nearest a d
unfolding nearest
nearest_ge a d w pos h = let k : w ≤ a / d = (le-div_iff_mul-le pos).1 h in ground (arith, k)

nearest_le : (a d w : ℕ) → 0 < d → a ≤ w * d → nearest a d ≤ w
unfolding nearest
nearest_le a d w pos h = elim (dec_le (suc (a / d)) w) [
  | yes below ↦ ground (arith, below)
  | no last ↦
      let at_most : a / d ≤ w = div-le_of_le-mul d (rw (mul_comm d w) h) in
      let exact : a / d ≡ w = omega (arith, at_most, last) in
      let split : w * d + a % d ≡ a = rw (← exact) (div-add-mod' a d) in
      let even : a % d ≡ 0 = omega (arith, split, h) in ground (arith, even, exact, pos)
]

pow_add : (k j : ℕ) → 2 ^ (k + j) ≡ 2 ^ k * 2 ^ j
pow_add zero j = rw (zero-add j) (omega arith)
pow_add (suc k) j =
    let ih : 2 ^ (k + j) ≡ 2 ^ k * 2 ^ j = pow_add k j in
    let left : 2 ^ suc (k + j) ≡ 2 ^ (k + j) + 2 ^ (k + j) = two-pow-succ (k + j) in
    let right : 2 ^ suc k * 2 ^ j ≡ (2 ^ k + 2 ^ k) * 2 ^ j =
      ap (λ x. x * 2 ^ j) (two-pow-succ k) in
    rw (suc-add k j) (omega (arith, left, ih, right, add-mul (2 ^ k) (2 ^ k) (2 ^ j)))

-- A float64 `m * 2 ^ e` that bounds a / b from above or from below.
module _ (a b m e : ℕ) (pos : 0 < b) (fits : m < 2 ^ 53) where
  abbrev dropped : ℕ
  dropped = low_bits (a / b) (a / b)

  abbrev weight : ℕ
  weight = 2 ^ dropped

  weight_pos : 0 < b * weight
  weight_pos = mul-pos pos (one-le-pow dropped 2 (omega arith))

  -- Where the bound has no more bits below than the quotient loses, it is a multiple of the weight.
  scale :
      (k : ℕ)
      → e ≡ k + dropped
      → (m * 2 ^ e ≡ m * 2 ^ k * weight) × (m * 2 ^ e * b ≡ m * 2 ^ k * (b * weight))
  scale k h =
      let value : m * 2 ^ e ≡ m * 2 ^ k * weight =
        ap (λ x. m * 2 ^ x) h
        ∙ ap (λ x. m * x) (pow_add k dropped)
        ∙ sym (mul_assoc m (2 ^ k) weight) in
      (
        value,
        ap (λ x. x * b) value
            ∙ mul_assoc (m * 2 ^ k) weight b
            ∙ ap (λ x. m * 2 ^ k * x) (mul_comm weight b),
      )

  -- Where it has more, it is less than the quotient.
  outgrown : suc e ≤ dropped → (2 ^ 52 * weight ≤ a / b) × (m * 2 ^ e < 2 ^ 52 * weight)
  outgrown h = elim (low_bits_lem (a / b) (a / b) (omega arith)).1 [
    | inl none_dropped ↦ absurd (omega (arith, none_dropped, h))
    | inr big ↦ (
      big,
      omega (
        arith,
        mul-lt-mul_of_pos_right fits (one-le-pow e 2 (omega arith)),
        two-pow-succ e,
        pow-le-pow_right {n = 2} (omega arith) h,
      ),
    )
  ]

  round_below : a ≤ m * 2 ^ e * b → round a b ≤ m * 2 ^ e
  unfolding round
  round_below h = elim (dec_le (suc e) dropped) [
    | yes over ↦
        let (big, small) = outgrown over in
        let q : a / b ≤ m * 2 ^ e = div-le_of_le-mul b (rw (mul_comm b (m * 2 ^ e)) h) in
        absurd (omega (arith, big, small, q))
    | no under ↦
        let (value, scaled) = scale (e - dropped) (omega (arith, under)) in
        let n = nearest_le a (b * weight) (m * 2 ^ (e - dropped)) weight_pos (rw (← scaled) h) in
        rw value (mul-le-mul_right weight n)
  ]

  round_above : m * 2 ^ e * b ≤ a → m * 2 ^ e ≤ round a b
  unfolding round
  round_above h = elim (dec_le (suc e) dropped) [
    | yes over ↦
        let (big, small) = outgrown over in
        let reach : 2 ^ 52 * (b * weight) ≤ a = omega (
          arith,
          mul-le-mul_right b big,
          div-mul-le_self a b,
          mul_comm b weight,
          mul_assoc (2 ^ 52) weight b,
        ) in
        let n = nearest_ge a (b * weight) (2 ^ 52) weight_pos reach in
        omega (arith, small, mul-le-mul_right weight n)
    | no under ↦
        let (value, scaled) = scale (e - dropped) (omega (arith, under)) in
        let n = nearest_ge a (b * weight) (m * 2 ^ (e - dropped)) weight_pos (rw (← scaled) h) in
        rw value (mul-le-mul_right weight n)
  ]

float_one_pos : 0 < float_one
unfolding float_one
float_one_pos = omega arith

-- The operations, against a bound `v` that is a float64.
module _ (v m e : ℕ) (value : v ≡ m * 2 ^ e) (fits : m < 2 ^ 53) where
  round_le : (a b : ℕ) → 0 < b → a ≤ v * b → round a b ≤ v
  round_le a b pos h = rw value (round_below a b m e pos fits (rw (← value) h))

  round_ge : (a b : ℕ) → 0 < b → v * b ≤ a → v ≤ round a b
  round_ge a b pos h = rw value (round_above a b m e pos fits (rw (← value) h))

  pub float_add-le : (x y : Float) → x + y ≤ v → float_add x y ≤ v
  unfolding float_add
  float_add-le x y h = round_le (x + y) 1 (omega arith) (omega (arith, h))

  pub float_add-ge : (x y : Float) → v ≤ x + y → v ≤ float_add x y
  unfolding float_add
  float_add-ge x y h = round_ge (x + y) 1 (omega arith) (omega (arith, h))

  pub float_mul-le : (x y : Float) → x * y ≤ v * float_one → float_mul x y ≤ v
  unfolding float_mul
  float_mul-le x y h = round_le (x * y) float_one float_one_pos h

  pub float_mul-ge : (x y : Float) → v * float_one ≤ x * y → v ≤ float_mul x y
  unfolding float_mul
  float_mul-ge x y h = round_ge (x * y) float_one float_one_pos h

-- A number below 2 ^ 53 is a float64.
pub of_nat-exact : (n : ℕ) → n < 2 ^ 53 → of_nat n ≡ n * float_one
unfolding of_nat
of_nat-exact n small =
    let v = n * float_one in
    let value : v ≡ n * 2 ^ 1074 = unfold float_one in refl in
    let above = round_le v n 1074 value small v 1 (omega arith) (omega arith) in
    let below = round_ge v n 1074 value small v 1 (omega arith) (omega arith) in
    omega (arith, above, below)
