-- ===== src/Version/Tests.antt =====
-- Runs of internal/version/version.go, and the theorems at concrete versions.
use server_status.Base.{none, some, ◌≡◌, refl, ◌↔◌}
use server_status.Base.Decimal.{parse_uint, split}
use server_status.Base.Text.{Text, codes, trim_space, trim_left, trim_right, is_space, text_lt}
use server_status.Version.Parse.{parse, parse_numbers, match_number}
use server_status.Version.Order.{
  less, equal, compare, compare_parsed, compare_prerelease, compare_lists, compare_identifiers,
  numeric_identifier,
}
use server_status.Version.Normal.{normalize, normalize_lem}
use server_status.Version.Laws.{SameVersion, compare_transitive, compare_equal_iff}

program : Unit {0}
unfolding parse parse_numbers match_number parse_uint split trim_space trim_left trim_right is_space
    text_lt compare compare_parsed compare_prerelease compare_lists compare_identifiers
    numeric_identifier normalize
program = tt

abbrev candidate : Text
candidate = codes "1.2.0-rc.2"

abbrev next_candidate : Text
next_candidate = codes "1.2.0-rc.10"

abbrev release : Text
release = codes "v1.2.0"

candidates : compare candidate next_candidate ≡ some less
unfolding program
candidates = refl

released : compare next_candidate release ≡ some less
unfolding program
released = refl

not_a_version : compare (codes "1.2") release ≡ none
unfolding program
not_a_version = refl

compare_transitive_example : compare candidate release ≡ some less
compare_transitive_example = compare_transitive candidate next_candidate release candidates released

compare_equal_iff_example :
    (compare release (codes " 1.2.0 ") ≡ some equal) ↔ SameVersion release (codes " 1.2.0 ")
compare_equal_iff_example = compare_equal_iff release (codes " 1.2.0 ")

normal : normalize (codes " v1.2.0-rc.2 ") ≡ some candidate
unfolding program
normal = refl

normalize_lem_example :
    (normalize candidate ≡ some candidate)
    × (compare candidate (codes " v1.2.0-rc.2 ") ≡ some equal)
normalize_lem_example = normalize_lem (codes " v1.2.0-rc.2 ") candidate normal
