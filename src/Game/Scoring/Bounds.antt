-- ===== src/Game/Scoring/Bounds.antt =====
-- What a right answer earns lies between half of the question's points and all of them.
use koviobe.Base.{
  ◌⊎◌, ap, ◌∙◌, ℕ, ◌+◌, ◌*◌, ◌/◌, ◌^◌, ◌≤◌, ◌<◌, ◌≡◌, refl, inl, inr, Bool, true, false, arith,
  Option, none, some, not, ◌&&◌,
}
use koviobe.Base.Floats.{Float, float_one, of_nat, float_add, float_mul, float_div, truncate}
use koviobe.Base.Rounding.{float_add-le, float_add-ge, float_mul-le, float_mul-ge, of_nat-exact}
use native.Mathlib.Nat.{
  mul-le-mul_right, mul-le-mul_left, le-div_iff_mul-le, mul_right_comm, one-mul, mul-add, add-mul,
  mul_comm, div-le_of_le-mul,
}
use koviobe.Model.Game.{Question}
use koviobe.Game.Scoring.{
  Marked, mark_solo, mark_classic, solo_ratio, classic_ratio, earned_points, is_late, half,
  at_most_one, speed_points,
}

one_eq : float_one ≡ 1 * 2 ^ 1074
unfolding float_one
one_eq = refl

half_eq : half ≡ 1 * 2 ^ 1073
unfolding float_div of_nat float_one
half_eq = refl

two_halves : float_one ≡ half + half
unfolding float_div of_nat float_one
two_halves = refl

float_one_pos : 0 < float_one
unfolding float_one
float_one_pos = omega arith

at_most_one-le : (r : Float) → at_most_one r ≤ float_one
at_most_one-le r = ground arith

-- The factor 0.5 + 0.5*ratio.
factor_bounds :
    (ratio : Float)
    → ratio ≤ float_one
    → (half ≤ float_add half (float_mul half ratio))
      × (float_add half (float_mul half ratio) ≤ float_one)
factor_bounds ratio h =
    let y = float_mul half ratio in
    let small : y ≤ half =
      float_mul-le half 1 1073 half_eq (omega arith) half ratio (mul-le-mul_left half h) in
    (
      float_add-ge half 1 1073 half_eq (omega arith) half y (omega arith),
      float_add-le float_one 1 1074 one_eq (omega arith) half y (omega (arith, small, two_halves)),
    )

pub speed_points_bounds :
    (points : ℕ) (ratio : Float)
    → points < 2 ^ 53
    → ratio ≤ float_one
    → (points / 2 ≤ speed_points points ratio) × (speed_points points ratio ≤ points)
unfolding speed_points truncate
speed_points_bounds points ratio small h =
    let s = float_add half (float_mul half ratio) in
    let (low, high) = factor_bounds ratio h in
    let exact = of_nat-exact points small in
    let x = float_mul (of_nat points) s in
    let v = points * float_one in
    let u = points * half in
    let k = points / 2 in
    let of_v : v ≡ points * 2 ^ 1074 = ap (λ w. points * w) (one_eq ∙ one-mul (2 ^ 1074)) in
    let of_u : u ≡ points * 2 ^ 1073 = ap (λ w. points * w) (half_eq ∙ one-mul (2 ^ 1073)) in
    let above : x ≤ v =
      float_mul-le v points 1074 of_v small (of_nat points) s (rw exact (mul-le-mul_left v high)) in
    let swap : u * float_one ≡ v * half = mul_right_comm points half float_one in
    let below : u ≤ x =
      float_mul-ge u points 1073 of_u small (of_nat points) s
        (rw exact (omega (arith, mul-le-mul_left v low, swap))) in
    let whole : k * float_one ≡ k * half + k * half =
      ap (λ w. k * w) two_halves ∙ mul-add k half half in
    let twice : (k + k) * half ≤ u = mul-le-mul_right half (omega arith) in
    let apart = add-mul k k half in
    (
      (le-div_iff_mul-le float_one_pos).1 (omega (arith, whole, twice, apart, below)),
      div-le_of_le-mul float_one (rw (mul_comm float_one points) above),
    )

-- A question as the handlers store it: at most 2000 points.
abbrev pub IsGraded : Question → Type 0
IsGraded q = q.points < 2 ^ 53

-- A mark that is right earns at least half of the points, rounded down, one that is wrong earns
-- nothing, and none earns more than the points.
abbrev pub FairMark : Question → Marked → Type 0
FairMark q m =
    (m.points_earned ≤ q.points)
    × (((m.is_correct ≡ true) × (q.points / 2 ≤ m.points_earned))
        ⊎ ((m.is_correct ≡ false) × (m.points_earned ≡ 0)))

fair_points :
    (q : Question) (correct : Bool) (ratio : Float) (m : Marked)
    → IsGraded q
    → ratio ≤ float_one
    → m.is_correct ≡ correct
    → m.points_earned ≡ earned_points correct q.points ratio
    → FairMark q m
fair_points q true ratio m small h a b =
    let (low, high) = speed_points_bounds q.points ratio small h in
    (omega (arith, b, high), inl (a, omega (arith, b, low)))
fair_points q false ratio m small h a b = (omega (arith, b), inr (a, b))

classic_fair :
    (now until : ℕ) (q : Question) (correct : Bool)
    → IsGraded q
    → FairMark q (mark_classic now until q correct)
unfolding mark_classic classic_ratio
classic_fair now until q correct small =
    fair_points q correct (classic_ratio now until q) (mark_classic now until q correct) small
      (at_most_one-le _) refl refl

-- Whenever an answer arrives and whatever clock it has, in either mode, it earns no more than the
-- question's points, nothing if it does not count as right, and at least half of them, rounded down,
-- if it does, for a question of fewer than 2 ^ 53 points; and in a solo game an answer later than two
-- seconds after the deadline does not count as right.
pub marks_fair :
    (now : ℕ) (start : Option ℕ) (until : ℕ) (q : Question) (correct : Bool)
    → IsGraded q
    → FairMark q (mark_solo now start q correct)
      × FairMark q (mark_classic now until q correct)
      × ((mark_solo now (some until) q correct).is_correct ≡ correct && not (is_late until now))
unfolding mark_solo solo_ratio
marks_fair now none until q correct small = (
  fair_points q correct 0 (mark_solo now none q correct) small (omega arith) refl refl,
  classic_fair now until q correct small,
  refl,
)
marks_fair now (some start) until q correct small = (
  fair_points q (correct && not (is_late start now)) _ (mark_solo now (some start) q correct) small
      (at_most_one-le _) refl refl,
  classic_fair now until q correct small,
  refl,
)
