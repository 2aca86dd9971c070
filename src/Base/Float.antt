-- ===== src/Base/Float.antt =====
-- Go's float64 as the program compares it. A finite double is a whole multiple of 2^-1074, so it is
-- an integer here, counted in that unit; the two zeros compare equal and are one value.
use Prim.Native.Nat.{ℕ, ◌*◌, ◌^◌, pred}
use mathlib.Core.Bool.{Bool, true, false, not}
use server_status.Base.Int.{ℤ, pos, negsuc, ltb_ℤ, eqb_ℤ}

pub data Float : Type 0 where
  nan : Float
  minus_inf plus_inf : Float
  finite : ℤ → Float

infix 50 ◌<F◌ ◌≤F◌
-- Every comparison with NaN is false.
unfoldable pub ◌<F◌ : Float → Float → Bool
nan <F b = false
a <F nan = false
minus_inf <F minus_inf = false
minus_inf <F b = true
plus_inf <F b = false
finite m <F minus_inf = false
finite m <F plus_inf = true
finite m <F finite n = ltb_ℤ m n

-- The doubles for the constants of the source; the units are 2^1074.
unfoldable pub of_nat : ℕ → Float
of_nat n = finite (pos (n * 2 ^ 1074))

-- -273.15, that is -2402652809016115 / 2^43
unfoldable pub absolute_zero : Float
absolute_zero = finite (negsuc (pred (2402652809016115 * 2 ^ 1031)))

unfoldable pub is_nan : Float → Bool
is_nan nan = true
is_nan a = false

-- `math.IsInf(value, 0)`
unfoldable pub is_inf : Float → Bool
is_inf minus_inf = true
is_inf plus_inf = true
is_inf a = false

-- `a <= b`
unfoldable pub ◌≤F◌ : Float → Float → Bool
unfolding ◌<F◌
nan ≤F b = false
minus_inf ≤F nan = false
plus_inf ≤F nan = false
finite m ≤F nan = false
minus_inf ≤F b = true
a ≤F b = not (b <F a)

unfoldable pub is_zero : Float → Bool
is_zero (finite m) = eqb_ℤ m (pos 0)
is_zero a = false
