-- ===== src/Base/Int.antt =====
-- Signed integers over the native numbers, and the range and the wrap-around of Go's int64.
use Prim.Native.Nat.{ℕ, suc, ◌+◌, ◌-◌, ◌%◌, ◌^◌, ◌≤◌, ◌<◌}
use mathlib.Core.Path.{◌≡◌}
use mathlib.Core.Logic.{◌↔◌}
use mathlib.Core.Bool.{Bool, true, false}
use native.Mathlib.Omega.{arith}
use server_status.Base.Tests.{ltb, leb, if◌then◌else◌, ◌==◌}

-- `negsuc n` is -(n + 1).
pub data ℤ : Type 0 where
  pos : ℕ → ℤ
  negsuc : ℕ → ℤ

abbrev pub pos_part : ℤ → ℕ
pos_part (pos n) = n
pos_part (negsuc n) = 0

abbrev pub neg_part : ℤ → ℕ
neg_part (pos n) = 0
neg_part (negsuc n) = suc n

-- a - b, as an integer.
abbrev pub sub_ℕ : ℕ → ℕ → ℤ
sub_ℕ a b = if leb b a then pos (a - b) else negsuc (b - a - 1)

infixl 65 ◌+ℤ◌
infix 50 ◌≤ℤ◌ ◌<ℤ◌
unfoldable pub ◌+ℤ◌ : ℤ → ℤ → ℤ
a +ℤ b = sub_ℕ (pos_part a + pos_part b) (neg_part a + neg_part b)

abbrev pub ◌≤ℤ◌ : ℤ → ℤ → Type 0
a ≤ℤ b = pos_part a + neg_part b ≤ pos_part b + neg_part a

abbrev pub ◌<ℤ◌ : ℤ → ℤ → Type 0
a <ℤ b = pos_part a + neg_part b < pos_part b + neg_part a

abbrev pub ltb_ℤ : ℤ → ℤ → Bool
ltb_ℤ a b = ltb (pos_part a + neg_part b) (pos_part b + neg_part a)

abbrev pub eqb_ℤ : ℤ → ℤ → Bool
eqb_ℤ a b = pos_part a + neg_part b == pos_part b + neg_part a

-- The values of a Go `int` (64 bits).
abbrev pub IsInt64 : ℤ → Type 0
IsInt64 a = (pos_part a < 2 ^ 63) × (neg_part a ≤ 2 ^ 63)

-- The int64 that a number mod 2^64 stands for, `int64(value)`.
unfoldable pub to_int64 : ℕ → ℤ
to_int64 n =
    if ltb (n % 2 ^ 64) (2 ^ 63) then pos (n % 2 ^ 64) else negsuc (2 ^ 64 - n % 2 ^ 64 - 1)

-- Addition of two `int`s, with its wrap-around.
unfoldable pub add_int64 : ℤ → ℤ → ℤ
unfolding to_int64
add_int64 a b = to_int64 (pos_part a + pos_part b + (2 ^ 64 - neg_part a) + (2 ^ 64 - neg_part b))

pub ltb_ℤ-true_iff : (a b : ℤ) → (ltb_ℤ a b ≡ true) ↔ (a <ℤ b)
ltb_ℤ-true_iff a b = ground arith

pub ltb_ℤ-false_iff : (a b : ℤ) → (ltb_ℤ a b ≡ false) ↔ (b ≤ℤ a)
ltb_ℤ-false_iff a b = ground arith

pub eqb_ℤ_iff : (a b : ℤ) → (eqb_ℤ a b ≡ true) ↔ (a ≡ b)
eqb_ℤ_iff a b = ground arith

-- A `uint64` below 2^63 keeps its value as an int64.
pub to_int64_exact : (n : ℕ) → n < 2 ^ 63 → to_int64 n ≡ pos n
unfolding to_int64
to_int64_exact n h = ground arith

-- The sum of two ints that are not negative wraps to a negative number or is exact.
pub add_int64_nonneg :
    (a b : ℤ)
    → IsInt64 a
    → IsInt64 b
    → pos 0 ≤ℤ a
    → pos 0 ≤ℤ b
    → pos 0 ≤ℤ add_int64 a b
    → add_int64 a b ≡ a +ℤ b
unfolding add_int64 ◌+ℤ◌
add_int64_nonneg a b ha hb pa pb h = ground arith
