-- ===== src/Report/Bigint.antt =====
-- validateUnsignedBigints and validateOptionalUnsignedBigints of internal/report/validate.go: a
-- uint64 that PostgreSQL stores as a bigint is at most math.MaxInt64.
use server_status.Base.{
  ℕ, ◌≤◌, ◌^◌, ◌-◌, List, [], ◌∷◌, ◌≡◌, refl, ◌↔◌, Option, none, some, All, arith, ltb,
}
use server_status.Base.Check.{reject, for_each, for_each-eq-none_iff}
use server_status.Report.Error.{BigintError, exceeds_bigint}

abbrev pub max_int64 : ℕ
max_int64 = 2 ^ 63 - 1

unfoldable pub validate_bigint : ℕ → Option BigintError
validate_bigint value = reject (ltb max_int64 value) exceeds_bigint

unfoldable pub validate_unsigned_bigints : List ℕ → Option BigintError
validate_unsigned_bigints = for_each validate_bigint

unfoldable pub validate_optional_bigint : Option ℕ → Option BigintError
validate_optional_bigint none = none
validate_optional_bigint (some value) = validate_unsigned_bigints (value ∷ [])

unfoldable pub validate_optional_unsigned_bigints : List (Option ℕ) → Option BigintError
validate_optional_unsigned_bigints = for_each validate_optional_bigint

abbrev pub Fits : ℕ → Type 0
Fits n = n ≤ max_int64

abbrev pub FitsOption : Option ℕ → Type 0
FitsOption none = Unit
FitsOption (some n) = Fits n

validate_bigint_iff : (n : ℕ) → (validate_bigint n ≡ none) ↔ Fits n
unfolding validate_bigint
validate_bigint_iff n = ground arith

pub validate_unsigned_bigints_iff :
    (ns : List ℕ) → (validate_unsigned_bigints ns ≡ none) ↔ All Fits ns
unfolding validate_unsigned_bigints
validate_unsigned_bigints_iff = for_each-eq-none_iff Fits validate_bigint validate_bigint_iff

validate_optional_bigint_iff : (n : Option ℕ) → (validate_optional_bigint n ≡ none) ↔ FitsOption n
unfolding validate_optional_bigint
validate_optional_bigint_iff none = (λ h. tt, λ h. refl)
validate_optional_bigint_iff (some n) =
    let one = validate_unsigned_bigints_iff (n ∷ []) in (λ h. (one.0 h).0, λ h. one.1 (h, tt))

pub validate_optional_unsigned_bigints_iff :
    (ns : List (Option ℕ)) → (validate_optional_unsigned_bigints ns ≡ none) ↔ All FitsOption ns
unfolding validate_optional_unsigned_bigints
validate_optional_unsigned_bigints_iff =
    for_each-eq-none_iff FitsOption validate_optional_bigint validate_optional_bigint_iff
