-- ===== src/Base/Text/Defs.antt =====
-- Go strings that are valid UTF-8, as their lists of code points, and the functions of the package
-- strings that the program calls. UTF-8 keeps the order of code points, so comparing code points is
-- Go's bytewise `<`.
use Prim.Native.Nat.{ℕ, ◌+◌}
use Prim.Native.Char.{code}
use Prim.Native.String.{String}
use mathlib.Core.Bool.{Bool, true, false, ◌&&◌, ◌||◌}
use mathlib.Core.List.{List, [], ◌∷◌}
use mathlib.Core.Option.{Option, none, some}
use server_status.Base.Tests.{ltb, leb, ◌==◌, if◌then◌else◌}

abbrev pub Text : Type 0
Text = List ℕ

-- The code points of a literal.
abbrev pub codes : String → Text
codes String.[] = []
codes (String.◌∷◌ c s) = code c ∷ codes s

unfoldable pub text_eq : Text → Text → Bool
text_eq [] [] = true
text_eq (a ∷ s) (b ∷ t) = a == b && text_eq s t
text_eq _ _ = false

-- `s < t`
unfoldable pub text_lt : Text → Text → Bool
text_lt [] [] = false
text_lt [] (b ∷ t) = true
text_lt (a ∷ s) [] = false
text_lt (a ∷ s) (b ∷ t) = ltb a b || (a == b && text_lt s t)

-- `s == ""`
abbrev pub is_empty : Text → Bool
is_empty [] = true
is_empty (c ∷ s) = false

-- The number of bytes of a code point, and `len(s)`.
rune_len : ℕ → ℕ
rune_len c = if ltb c 0x80 then 1 else if ltb c 0x800 then 2 else if ltb c 0x10000 then 3 else 4

unfoldable pub byte_len : Text → ℕ
unfolding rune_len
byte_len [] = 0
byte_len (c ∷ s) = rune_len c + byte_len s

-- `unicode.IsSpace`
unfoldable pub is_space : ℕ → Bool
is_space c =
    (leb 9 c && leb c 13)
    || c == 0x20
    || c == 0x85
    || c == 0xA0
    || c == 0x1680
    || (leb 0x2000 c && leb c 0x200A)
    || c == 0x2028
    || c == 0x2029
    || c == 0x202F
    || c == 0x205F
    || c == 0x3000

unfoldable pub trim_left : Text → Text
trim_left [] = []
trim_left (c ∷ s) = let rest = trim_left s in if is_space c then rest else c ∷ s

unfoldable pub trim_right : Text → Text
trim_right [] = []
trim_right (c ∷ s) = let rest = trim_right s in if is_space c && is_empty rest then [] else c ∷ rest

-- `strings.TrimSpace`
unfoldable pub trim_space : Text → Text
trim_space s = trim_right (trim_left s)

-- `strings.TrimSpace(s) == ""`
abbrev pub is_blank : Text → Bool
is_blank s = is_empty (trim_space s)

-- Whether a list of strings, or the keys of a Go set of strings, has a string.
unfoldable pub contains : List Text → Text → Bool
unfolding text_eq
contains [] s = false
contains (t ∷ ts) s = text_eq t s || contains ts s

-- `strings.HasPrefix(s, prefix)`
unfoldable pub has_prefix : Text → Text → Bool
has_prefix s [] = true
has_prefix [] (c ∷ p) = false
has_prefix (b ∷ s) (c ∷ p) = b == c && has_prefix s p

-- `strings.Contains(s, sub)`
unfoldable pub contains_text : Text → Text → Bool
unfolding has_prefix
contains_text [] p = has_prefix [] p
contains_text (c ∷ s) p = has_prefix (c ∷ s) p || contains_text s p

-- `unicode.ToLower`, as far as comparing with ASCII text can tell: other letters have no ASCII letter
-- below them.
unfoldable pub to_lower_rune : ℕ → ℕ
to_lower_rune c =
    if leb b'A' c && leb c b'Z'
    then c + 32
    else if c == 0x130
    then b'i'
    else if c == 0x212A
    then b'k'
    else c

-- `strings.ToLower(s)`
unfoldable pub to_lower : Text → Text
unfolding to_lower_rune
to_lower [] = []
to_lower (c ∷ s) = to_lower_rune c ∷ to_lower s

-- What `strings.EqualFold` compares, as far as comparing with ASCII text can tell: beside the capital
-- letters, the long s and the sign for kelvin are those letters.
unfoldable pub fold_rune : ℕ → ℕ
fold_rune c =
    if leb b'A' c && leb c b'Z'
    then c + 32
    else if c == 0x17F
    then b's'
    else if c == 0x212A
    then b'k'
    else c

unfoldable pub fold : Text → Text
unfolding fold_rune
fold [] = []
fold (c ∷ s) = fold_rune c ∷ fold s

-- `strings.EqualFold(s, t)`, where `t` is ASCII
unfoldable pub equal_fold : Text → Text → Bool
unfolding fold text_eq
equal_fold s t = text_eq (fold s) (fold t)

-- `strings.Cut(s, sep)` for a separator of one character; `none` is not found.
unfoldable pub cut : ℕ → Text → Option (Text × Text)
cut sep [] = none
cut sep (c ∷ s) = elim (cut sep s) [
  | none ↦ if c == sep then some ([], s) else none
  | some parts ↦ if c == sep then some ([], s) else some (c ∷ parts.0, parts.1)
]

-- `strings.TrimRight(s, "/")`
unfoldable pub trim_slashes : Text → Text
trim_slashes [] = []
trim_slashes (c ∷ s) =
    let rest = trim_slashes s in if c == b'/' && is_empty rest then [] else c ∷ rest
