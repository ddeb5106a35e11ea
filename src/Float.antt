-- ===== src/Float.antt =====
-- Python floats where the code only compares them. A finite double is an integer multiple of
-- 2 ^ -1074, so the doubles are these integers with two infinities and NaN, and the order is exact.
use embodied_hand_lab.Prelude.{ℕ, Bool, true, false, ◌^◌}
use embodied_hand_lab.Prelude.Int.{ℤ, pos, lebℤ, ltbℤ}

pub data Float : Type 0 where
  finite : ℤ → Float
  infinity : Float
  minus_infinity : Float
  nan : Float

-- `math.isfinite`
unfoldable pub is_finite : Float → Bool
is_finite (finite a) = true
is_finite infinity = false
is_finite minus_infinity = false
is_finite nan = false

-- `a <= b`, false where either is NaN
unfoldable pub float_le : Float → Float → Bool
float_le nan b = false
float_le a nan = false
float_le minus_infinity b = true
float_le a infinity = true
float_le (finite a) (finite b) = lebℤ a b
float_le _ _ = false

-- `a < b`
unfoldable pub float_lt : Float → Float → Bool
float_lt nan b = false
float_lt a nan = false
float_lt minus_infinity minus_infinity = false
float_lt minus_infinity b = true
float_lt infinity infinity = false
float_lt a infinity = true
float_lt (finite a) (finite b) = ltbℤ a b
float_lt _ _ = false

-- 1.0, 0.0, 0.75 and 0.55 (the double nearest to it, 0x1.199999999999a × 2 ^ -1)
abbrev pub units_one : ℕ
units_one = 2 ^ 1074

abbrev pub zero_float : Float
zero_float = finite (pos 0)

abbrev pub one_float : Float
one_float = finite (pos units_one)
