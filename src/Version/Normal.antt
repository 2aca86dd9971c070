-- ===== src/Version/Normal.antt =====
-- Normalize of internal/version/version.go, and what a normal form is.
use server_status.Base.{
  ℕ, true, false, [], ◌∷◌, Option, none, some, ◌≡◌, refl, arith, Bool-cases, inl, inr,
}
use server_status.Base.Decimal.{is_digit, parse_uint}
use server_status.Base.Text.{
  Text, is_space, trim_right, trim_space, trim_right_tail, trim_left_of_not_space,
  trim_right-trim_space,
}
use server_status.Version.Parse.{Parsed, parse, parse_numbers, drop_v, match_number}
use server_status.Version.Order.{equal, compare}
use server_status.Version.Laws.{compare_parsed-IsTotalOrder}

or_drop_v : Text → Option Parsed → Option Text
or_drop_v value none = none
or_drop_v value (some version) = some (drop_v value)

unfoldable pub normalize : Text → Option Text
unfolding or_drop_v
normalize value = let trimmed = trim_space value in or_drop_v trimmed (parse trimmed)

-- What parses starts with a digit.
parse_numbers_digit :
    (c : ℕ) (t : Text) (p : Parsed) → parse_numbers (c ∷ t) ≡ some p → is_digit c ≡ true
unfolding parse_numbers match_number parse_uint
parse_numbers_digit c t p h = elim (Bool-cases (is_digit c)) [ inl e ↦ e | inr e ↦ ground arith ]

parse_numbers-nil : (p : Parsed) → parse_numbers [] ≡ some p → ⊥
unfolding parse_numbers match_number parse_uint
parse_numbers-nil p h = cc

digit_not_v : (c : ℕ) (t : Text) → is_digit c ≡ true → drop_v (c ∷ t) ≡ c ∷ t
unfolding drop_v
digit_not_v c t h = ground arith

digit_not_space : (c : ℕ) → is_digit c ≡ true → is_space c ≡ false
unfolding is_space
digit_not_space c h = ground arith

trim_right-drop_v : (s : Text) → trim_right s ≡ s → trim_right (drop_v s) ≡ drop_v s
unfolding drop_v
trim_right-drop_v [] h = h
trim_right-drop_v (c ∷ s) h = ground (arith, trim_right_tail c s)

-- A text that parses and has no space at its end is its own trimmed form.
trim_space_numbers :
    (d : Text) (p : Parsed)
    → parse_numbers d ≡ some p
    → trim_right d ≡ d
    → (trim_space d ≡ d) × (drop_v d ≡ d)
unfolding trim_space
trim_space_numbers [] p h e = absurd (parse_numbers-nil p h)
trim_space_numbers (c ∷ t) p h e =
    let digit = parse_numbers_digit c t p h in
    (rw (trim_left_of_not_space c t (digit_not_space c digit)) e, digit_not_v c t digit)

-- The normal form is its own normal form, and the same version.
pub normalize_lem :
    (value w : Text)
    → normalize value ≡ some w
    → (normalize w ≡ some w) × (compare w value ≡ some equal)
unfolding normalize compare parse
normalize_lem value w h = go (parse_numbers (drop_v (trim_space value))) refl
  where
    go :
        (o : Option Parsed)
        → parse_numbers (drop_v (trim_space value)) ≡ o
        → (normalize w ≡ some w) × (compare w value ≡ some equal)
    go none e = absurd (ground (arith, e))
    go (some p) e =
        let d = drop_v (trim_space value) in
        let (trimmed, bare) =
          trim_space_numbers d p e
            (trim_right-drop_v (trim_space value) (trim_right-trim_space value)) in
        let same : d ≡ w = ground (arith, e) in
        rw (← same) (
          simp (trimmed, bare, e),
          simp (trimmed, bare, e, compare_parsed-IsTotalOrder.reflexive p),
        )
