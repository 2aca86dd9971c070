-- ===== src/Report/Keys.antt =====
-- uniqueKeys of internal/report/validate.go: the keys of a list of resources, trimmed, are not empty
-- and not repeated.
use mathlib.Core.List.{Nodup}
use mathlib.Core.List.Pairwise
use server_status.Base.{List, [], map, ◌≡◌, ◌≢◌, ap, ◌↔◌, Option, none, All, arith}
use server_status.Base.Check.{◌>>◌, reject}
use server_status.Base.Distinct.{for_distinct, for_distinct_iff}
use server_status.Base.Text.{Text, trim_space, is_blank, is_empty-false_iff}
use server_status.Report.Error.{ValidationError, empty_key, duplicate_key}

-- The keys `key(i)` for i from 0 to count - 1, and the name of the kind of resource.
unfoldable pub unique_keys : Text → List Text → Option ValidationError
unfolding for_distinct
unique_keys kind =
    for_distinct trim_space (λ key. duplicate_key kind (trim_space key))
      (λ key. reject (is_blank key) (empty_key kind)) (λ key. none) []

-- Every trimmed key is not empty, and no two trimmed keys are equal.
pub record HasUniqueKeys (keys : List Text) : Type 0 where
  pub filled : All (λ k. trim_space k ≢ []) keys
  pub distinct : Nodup (map trim_space keys)

filled_iff :
    (kind key : Text)
    → ((reject (is_blank key) (empty_key kind) >> none) ≡ none) ↔ (trim_space key ≢ [])
filled_iff kind key = ground (arith, is_empty-false_iff (trim_space key))

-- uniqueKeys passes exactly the lists whose trimmed keys are all filled and all different.
pub unique_keys_iff :
    (kind : Text) (keys : List Text) → (unique_keys kind keys ≡ none) ↔ HasUniqueKeys keys
unfolding unique_keys
unique_keys_iff kind keys =
    let loop =
      for_distinct_iff trim_space (λ key. duplicate_key kind (trim_space key))
        (λ key. reject (is_blank key) (empty_key kind)) (λ key. none) (λ k. trim_space k ≢ [])
        (filled_iff kind) keys in
    (
      λ h. let (filled, distinct) = loop.0 h in record { filled = filled; distinct = distinct },
      λ u. loop.1 (u.filled, u.distinct),
    )

-- Keys that stay different when trimmed are different.
pub Nodup-of_HasUniqueKeys : (keys : List Text) → HasUniqueKeys keys → Nodup keys
Nodup-of_HasUniqueKeys keys u =
    Pairwise.of_map trim_space (λ a b h e. h (ap trim_space e)) u.distinct
