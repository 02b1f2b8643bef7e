-- ===== src/Base/Floats.antt =====
-- Go's float64, for the numbers that are not negative and in range. A number is counted in units of
-- 2 ^ -1074, the least that a float64 can hold, and every operation rounds its exact result to 53
-- significant bits, ties to even.
use Prim.Native.Nat.{ℕ, zero, suc, ◌+◌, ◌-◌, ◌*◌, ◌/◌, ◌%◌, ◌^◌}
use mathlib.Core.Bool.{true, false}
use koviobe.Base.Tests.{ltb, ◌==◌, if◌then◌else◌}

abbrev pub Float : Type 0
Float = ℕ

unfoldable pub float_one : Float
float_one = 2 ^ 1074

-- How many bits of `q` lie below its first 53.
unfoldable pub low_bits : ℕ → ℕ → ℕ
low_bits zero q = 0
low_bits (suc f) q = elim (ltb q (2 ^ 53)) [ true ↦ 0 | false ↦ suc (low_bits f (q / 2)) ]

-- The whole number that is nearest to a / d, and the even one of two.
unfoldable pub nearest : ℕ → ℕ → ℕ
nearest a d =
    if ltb (2 * (a % d)) d
    then a / d
    else if ltb d (2 * (a % d))
    then suc (a / d)
    else if (a / d) % 2 == 0
    then a / d
    else suc (a / d)

-- The float64 that is nearest to a / b units. A number has fewer bits than itself.
unfoldable pub round : ℕ → ℕ → Float
unfolding low_bits nearest
round a b = let w = 2 ^ low_bits (a / b) (a / b) in nearest a (b * w) * w

unfoldable pub of_nat : ℕ → Float
unfolding round
of_nat n = round (n * float_one) 1

unfoldable pub float_add : Float → Float → Float
unfolding round
float_add x y = round (x + y) 1

-- The difference, or 0 where it is negative.
unfoldable pub float_sub : Float → Float → Float
unfolding round
float_sub x y = round (x - y) 1

unfoldable pub float_mul : Float → Float → Float
unfolding round
float_mul x y = round (x * y) float_one

unfoldable pub float_div : Float → Float → Float
unfolding round
float_div x y = round (x * float_one) y

-- The conversion to `int`, which drops the fraction.
unfoldable pub truncate : Float → ℕ
truncate x = x / float_one
