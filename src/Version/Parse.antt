-- ===== src/Version/Parse.antt =====
-- `pattern` and `parse` of internal/version/version.go.
use server_status.Base.{
  ℕ, Bool, true, ◌&&◌, ◌||◌, not, List, [], ◌∷◌, Option, none, some, ◌≡◌, refl, leb, ◌==◌,
  if◌then◌else◌,
}
use server_status.Base.Decimal.{is_digit, parse_uint, split}
use server_status.Base.Text.{Text, codes, is_empty}

pub record Parsed : Type 0 where
  pub major : ℕ
  pub minor : ℕ
  pub patch : ℕ
  pub prerelease : List Text

-- `[0-9A-Za-z.-]`
unfoldable pub is_identifier_char : ℕ → Bool
is_identifier_char c =
    is_digit c || (leb b'A' c && leb c b'Z') || (leb b'a' c && leb c b'z') || c == b'.' || c == b'-'

unfoldable pub all_identifier_chars : Text → Bool
unfolding is_identifier_char
all_identifier_chars [] = true
all_identifier_chars (c ∷ s) = is_identifier_char c && all_identifier_chars s

-- `[0-9]*`, as far as it goes, and what follows.
unfoldable pub take_digits : Text → Text × Text
take_digits [] = ([], [])
take_digits (c ∷ s) =
    let (digits, rest) = take_digits s in if is_digit c then (c ∷ digits, rest) else ([], c ∷ s)

-- `v?`
unfoldable pub drop_v : Text → Text
drop_v [] = []
drop_v (c ∷ s) = if c == b'v' then s else c ∷ s

-- `(?:[.-]([0-9A-Za-z.-]+))?$`: the group's text, empty where the group is left out.
unfoldable pub match_suffix : Text → Option Text
unfolding all_identifier_chars
match_suffix [] = some []
match_suffix (c ∷ s) =
    if (c == b'.' || c == b'-') && (all_identifier_chars s && not (is_empty s))
    then some s
    else none

-- `\.`
unfoldable pub match_dot : Text → Option Text
match_dot [] = none
match_dot (c ∷ s) = if c == b'.' then some s else none

infixl 5 ◌>>=◌
abbrev pub ◌>>=◌ : {A B : Type 0} → Option A → (A → Option B) → Option B
none >>= f = none
some a >>= f = f a

-- A run of digits must follow; an empty one is refused by `parse_uint`, as the pattern refuses it.
unfoldable pub match_number : Text → Option (ℕ × Text)
unfolding take_digits
match_number s = do let m = take_digits s; n ← parse_uint m.0; some (n, m.1)

-- `if matches[4] != "" { result.prerelease = strings.Split(matches[4], ".") }`
unfoldable pub identifiers : Text → List Text
identifiers [] = []
identifiers (c ∷ s) = split b'.' (c ∷ s)

-- What follows the `v`. The numbers are read as they are matched: the result is `none` if the pattern
-- does not match, and if a number does not fit a uint64.
unfoldable pub parse_numbers : Text → Option Parsed
unfolding match_dot match_suffix identifiers
parse_numbers value = do
  a ← match_number value
  r ← match_dot a.1
  b ← match_number r
  s ← match_dot b.1
  c ← match_number s
  suffix ← match_suffix c.1
  some (record { major = a.0; minor = b.0; patch = c.0; prerelease = identifiers suffix })

unfoldable pub parse : Text → Option Parsed
unfolding drop_v
parse value = parse_numbers (drop_v value)

parses :
    parse (codes "v1.20.3-rc.1")
    ≡ some (record { major = 1; minor = 20; patch = 3; prerelease = codes "rc" ∷ codes "1" ∷ [] })
unfolding parse parse_numbers match_number parse_uint split
parses = refl

rejects : parse (codes "1.2.3-") ≡ none
unfolding parse parse_numbers match_number parse_uint split
rejects = refl
