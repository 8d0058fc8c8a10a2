-- ===== src/Prelude/Double.antt =====
-- IEEE doubles by their 64 bits. Comparison goes by the bits; arithmetic is not defined here.
use Prim.Native.Nat.{ℕ, ◌-◌, ◌+◌}
use mathlib.Core.Bool.{Bool, true, not, ◌&&◌, ◌||◌}
use enterprise_databrick_fra.Prelude.Tests.{leb, ltb, if◌then◌else◌}

pub record Double : Type 0 where
  pub bits : ℕ

-- 0x8000000000000000: from here on the sign bit is set.
abbrev pub sign_bit : ℕ
sign_bit = 0x8000_0000_0000_0000

abbrev pub infinity_bits : ℕ
infinity_bits = 0x7ff0_0000_0000_0000

abbrev pub zero_double : Double
zero_double = record { bits = 0 }

abbrev pub one_double : Double
one_double = record { bits = 0x3ff0_0000_0000_0000 }

abbrev pub is_negative : Double → Bool
is_negative x = leb sign_bit x.bits

-- The bits without the sign; doubles of one sign are ordered by it.
abbrev pub magnitude : Double → ℕ
magnitude x = if is_negative x then x.bits - sign_bit else x.bits

abbrev pub is_nan : Double → Bool
is_nan x = ltb infinity_bits (magnitude x)

-- `x <= y`: false at a NaN, and the two zeros are equal.
unfoldable pub le_double : Double → Double → Bool
le_double x y =
    not (is_nan x || is_nan y)
    && (if is_negative x
        then (if is_negative y then leb (magnitude y) (magnitude x) else true)
        else if is_negative y
        then leb (magnitude x + magnitude y) 0
        else leb (magnitude x) (magnitude y))

-- `abs(x)`
abbrev pub absolute : Double → Double
absolute x = record { bits = magnitude x }
