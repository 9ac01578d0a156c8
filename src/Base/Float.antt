-- ===== src/Base/Float.antt =====
-- A Go float64 is its IEEE 754 bit pattern, a number below 2 ^ 64. The tests that the program makes
-- read the pattern; sums and products are the parameters of what computes them.
use Prim.Native.Nat.{ℕ}
use mathlib.Core.Bool.{Bool, ◌&&◌, ◌||◌}
use fin_base.Base.Tests.{ltb, leb, ◌==◌}

abbrev pub Float : Type 0
Float = ℕ

-- The pattern of plus infinity: above it stand the quiet numbers that are none, and the negatives.
abbrev pub infinity : ℕ
infinity = 0x7ff0000000000000

-- The pattern of minus zero.
abbrev pub minus_zero : ℕ
minus_zero = 0x8000000000000000

-- `x > 0`
abbrev pub is_positive : Float → Bool
is_positive x = ltb 0 x && leb x infinity

-- `x == 0`
abbrev pub is_zero : Float → Bool
is_zero x = x == 0 || x == minus_zero

-- `x < y` for positive `x` and `y`, whose patterns are in the order of their values.
abbrev pub below_positive : Float → Float → Bool
below_positive x y = ltb x y

-- The products and differences that the program computes.
pub record FloatOps : Type 0 where
  pub mul : Float → Float → Float
  pub sub : Float → Float → Float
