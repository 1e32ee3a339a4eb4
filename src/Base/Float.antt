-- ===== src/Base/Float.antt =====
-- Python's floats as the program compares them: every comparison with NaN is false.
use mathlib.Core.Bool.{Bool, true, false}
use crane_tracker.Base.Int.{ℤ, ltb_ℤ, leb_ℤ}

-- A number is in units of 1e-7.
pub data Float : Type 0 where
  nan minus_infinity plus_infinity : Float
  number : ℤ → Float

abbrev pub ltb_Float : Float → Float → Bool
ltb_Float (number a) (number b) = ltb_ℤ a b
ltb_Float (number a) plus_infinity = true
ltb_Float (number a) _ = false
ltb_Float minus_infinity (number b) = true
ltb_Float minus_infinity plus_infinity = true
ltb_Float minus_infinity _ = false
ltb_Float plus_infinity _ = false
ltb_Float nan _ = false

abbrev pub leb_Float : Float → Float → Bool
leb_Float (number a) (number b) = leb_ℤ a b
leb_Float (number a) plus_infinity = true
leb_Float (number a) _ = false
leb_Float minus_infinity nan = false
leb_Float minus_infinity _ = true
leb_Float plus_infinity plus_infinity = true
leb_Float plus_infinity _ = false
leb_Float nan _ = false

abbrev pub is_nan : Float → Bool
is_nan nan = true
is_nan _ = false
