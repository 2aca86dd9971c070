-- ===== src/Version/Order.antt =====
-- Compare, comparePrerelease and numericIdentifier of internal/version/version.go. The results -1, 0
-- and 1 are `less`, `equal` and `greater`; a failed comparison is `none`.
use server_status.Base.{ℕ, List, [], ◌∷◌, Option, none, some, ltb, if◌then◌else◌}
use server_status.Base.Decimal.{parse_uint}
use server_status.Base.Text.{Text, text_lt, trim_space}
use server_status.Version.Parse.{Parsed, parse, ◌>>=◌}

pub data Comparison : Type 0 where
  less equal greater : Comparison

-- The empty identifier and one with another character than a digit are not numeric, nor is a number
-- that does not fit a uint64.
unfoldable pub numeric_identifier : Text → Option ℕ
numeric_identifier value = parse_uint value

unfoldable pub compare_text : Text → Text → Comparison
compare_text l r = if text_lt l r then less else if text_lt r l then greater else equal

-- The switch of comparePrerelease, on the numbers of the two identifiers.
unfoldable pub compare_kinds : Option ℕ → Option ℕ → Text → Text → Comparison
unfolding compare_text
compare_kinds (some m) (some n) l r =
    if ltb m n then less else if ltb n m then greater else compare_text l r
compare_kinds (some m) none l r = less
compare_kinds none (some n) l r = greater
compare_kinds none none l r = compare_text l r

unfoldable pub compare_identifiers : Text → Text → Comparison
unfolding compare_kinds
compare_identifiers l r = compare_kinds (numeric_identifier l) (numeric_identifier r) l r

-- `return` unless the identifiers are equal
abbrev pub then_compare : Comparison → Comparison → Comparison
then_compare less c = less
then_compare greater c = greater
then_compare equal c = c

-- The loop over the common length, then the lengths.
unfoldable pub compare_lists : List Text → List Text → Comparison
compare_lists [] [] = equal
compare_lists [] (r ∷ rs) = less
compare_lists (l ∷ ls) [] = greater
compare_lists (l ∷ ls) (r ∷ rs) = then_compare (compare_identifiers l r) (compare_lists ls rs)

-- A version without prerelease is above one with it.
unfoldable pub compare_prerelease : List Text → List Text → Comparison
compare_prerelease [] [] = equal
compare_prerelease [] (r ∷ rs) = greater
compare_prerelease (l ∷ ls) [] = less
compare_prerelease (l ∷ ls) (r ∷ rs) = compare_lists (l ∷ ls) (r ∷ rs)

unfoldable pub compare_number : ℕ → ℕ → Comparison
compare_number m n = if ltb m n then less else if ltb n m then greater else equal

unfoldable pub compare_parsed : Parsed → Parsed → Comparison
unfolding compare_number
compare_parsed l r = then_compare (compare_number l.major r.major) (
    then_compare (compare_number l.minor r.minor) (
      then_compare (compare_number l.patch r.patch) (compare_prerelease l.prerelease r.prerelease)))

unfoldable pub compare : Text → Text → Option Comparison
compare left right = do
  l ← parse (trim_space left)
  r ← parse (trim_space right)
  some (compare_parsed l r)
