-- ===== src/Base/Decimal.antt =====
-- `strconv.ParseUint(text, 10, 64)` and `strings.Split` by a character.
use mathlib.Core.List.{List, [], ◌∷◌}
use mathlib.Core.Bool.{Bool, true, ◌&&◌}
use mathlib.Core.Option.{Option, none, some}
use mathlib.Core.Path.{◌≡◌, refl}
use Prim.Native.Nat.{ℕ, ◌+◌, ◌-◌, ◌*◌, ◌^◌, ◌<◌}
use native.Mathlib.Omega.{arith}
use server_status.Base.Tests.{ltb, leb, ◌==◌, if◌then◌else◌}
use server_status.Base.Text.{Text, codes}

abbrev pub is_digit : ℕ → Bool
is_digit c = leb b'0' c && leb c b'9'

unfoldable pub all_digits : Text → Bool
all_digits [] = true
all_digits (c ∷ s) = is_digit c && all_digits s

-- The number that the digits spell, behind the digits of `n`.
unfoldable pub digits_value : ℕ → Text → ℕ
digits_value n [] = n
digits_value n (c ∷ s) = digits_value (n * 10 + (c - b'0')) s

-- `none` is an error: no digit, another character, or a number that does not fit a uint64.
unfoldable pub parse_uint : Text → Option ℕ
unfolding all_digits digits_value
parse_uint [] = none
parse_uint (c ∷ s) =
    if all_digits (c ∷ s) && ltb (digits_value 0 (c ∷ s)) (2 ^ 64)
    then some (digits_value 0 (c ∷ s))
    else none

-- A parsed number fits.
pub parse_uint-lt : (s : Text) (n : ℕ) → parse_uint s ≡ some n → n < 2 ^ 64
unfolding parse_uint
parse_uint-lt [] n h = cc
parse_uint-lt (c ∷ s) n h = ground arith

cons_first : ℕ → List Text → List Text
cons_first c [] = (c ∷ []) ∷ []
cons_first c (p ∷ ps) = (c ∷ p) ∷ ps

-- `strings.Split(s, sep)` for a separator of one character: one part more than separators.
unfoldable pub split : ℕ → Text → List Text
unfolding cons_first
split sep [] = [] ∷ []
split sep (c ∷ s) = let parts = split sep s in if c == sep then [] ∷ parts else cons_first c parts

parses : parse_uint (codes "18446744073709551615") ≡ some 18446744073709551615
unfolding parse_uint
parses = refl

overflows : parse_uint (codes "18446744073709551616") ≡ none
unfolding parse_uint
overflows = refl

splits : split b'.' (codes "a..b") ≡ codes "a" ∷ [] ∷ codes "b" ∷ []
unfolding split
splits = refl
