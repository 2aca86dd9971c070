-- ===== src/Server/Releases.antt =====
-- internal/server/release_cache.go: the names of releases and of their assets, and the checksums of a
-- release.
pub mod Files
pub mod Cache
pub mod Steps
pub mod Verified
pub mod Paths
pub mod Served
pub mod Agreed
pub mod Names
use server_status.Base.{
  ℕ, Bool, true, false, not, ◌&&◌, ◌||◌, List, [], ◌∷◌, Option, none, some, ◌⊎◌, inl, inr,
  if◌then◌else◌, ltb, leb, ◌==◌,
}
use server_status.Base.Checksums.{fields, is_digest, max_token_size}
use server_status.Base.Decimal.{split}
use server_status.Base.Dict.{get, put}
use server_status.Base.Text.{Text, codes, text_eq, to_lower, byte_len, is_empty, contains}
use server_status.Version.Parse.{take_digits, match_dot, match_suffix, ◌>>=◌}

-- The errors of a request for an asset.
pub data ReleaseError : Type 0 where
  unreadable_checksums no_checksum : ReleaseError
  inspect_failed no_directory no_temporary_file : ReleaseError
  no_request download_failed refused interrupted too_long : ReleaseError
  not_synced not_closed not_chmodded not_published : ReleaseError
  read_failed not_verified not_regular : ReleaseError

-- `[0-9]+`: what follows a run of digits that is not empty.
unfoldable pub match_digits : Text → Option Text
unfolding take_digits
match_digits s = let (digits, rest) = take_digits s in if is_empty digits then none else some rest

-- `^v`
unfoldable pub match_v : Text → Option Text
match_v [] = none
match_v (c ∷ s) = if c == b'v' then some s else none

-- `[0-9]+\.[0-9]+\.[0-9]+([.-][0-9A-Za-z.-]+)?$`
unfoldable pub release_numbers : Text → Option Text
unfolding match_digits match_dot match_suffix
release_numbers major = do
  dot ← match_digits major
  minor ← match_dot dot
  dot' ← match_digits minor
  patch ← match_dot dot'
  suffix ← match_digits patch
  match_suffix suffix

unfoldable pub release_version_pattern : Text → Option Text
unfolding match_v release_numbers
release_version_pattern version = do major ← match_v version; release_numbers major

abbrev pub is_some : Option Text → Bool
is_some none = false
is_some (some s) = true

abbrev pub latest : Text
latest = codes "latest"

unfoldable pub valid_release_version : Text → Bool
unfolding release_version_pattern
valid_release_version version =
    text_eq version latest
    || (leb (byte_len version) 64 && is_some (release_version_pattern version))

abbrev pub checksums_txt : Text
checksums_txt = codes "checksums.txt"

abbrev pub linux_amd64 : Text
linux_amd64 = codes "server-status-agent-linux-amd64"

abbrev pub linux_arm64 : Text
linux_arm64 = codes "server-status-agent-linux-arm64"

abbrev pub release_assets : List Text
release_assets =
    checksums_txt
    ∷ linux_amd64
    ∷ linux_arm64
    ∷ codes "server-status-agent-macos"
    ∷ codes "server-status-agent-windows-386.exe"
    ∷ codes "server-status-agent-windows-amd64.exe"
    ∷ codes "server-status-smartctl-windows-setup.exe"
    ∷ codes "server-status-smartctl-source.tar.gz"
    ∷ []

unfoldable pub valid_release_asset : Text → Bool
valid_release_asset asset = contains release_assets asset

-- What the words of one line add to the digests.
unfoldable pub add_listed : List (Text × Text) → List Text → List (Text × Text)
unfolding valid_release_asset is_digest
add_listed checksums (digest ∷ name ∷ []) =
    if valid_release_asset name && not (text_eq name checksums_txt) && is_digest digest
    then put name (to_lower digest) checksums
    else checksums
add_listed checksums _ = checksums

-- The loop over the lines; a line that is too long ends it with an error.
unfoldable pub scan_checksums : List (Text × Text) → List Text → ReleaseError ⊎ List (Text × Text)
unfolding add_listed
scan_checksums checksums [] = inr checksums
scan_checksums checksums (line ∷ lines) =
    let rest = scan_checksums (add_listed checksums (fields line)) lines in
    if ltb (byte_len line) max_token_size then rest else inl unreadable_checksums

-- `checksums[asset]` is empty where the key is missing.
abbrev pub or_nothing : Option Text → Text
or_nothing none = []
or_nothing (some digest) = digest

unfoldable pub digest_of : Text → List (Text × Text) → Text
digest_of asset checksums = or_nothing (get asset checksums)

-- Both agents for Linux must be listed.
unfoldable pub require_agents : List (Text × Text) → ReleaseError ⊎ List (Text × Text)
unfolding digest_of
require_agents checksums =
    if is_empty (digest_of linux_amd64 checksums) || is_empty (digest_of linux_arm64 checksums)
    then inl no_checksum
    else inr checksums

-- `if err != nil { return err }`
infixl 5 ◌then_do◌
abbrev pub ◌then_do◌ : {A B : Type 0} → ReleaseError ⊎ A → (A → ReleaseError ⊎ B) → ReleaseError ⊎ B
inl e then_do next = inl e
inr a then_do next = next a

unfoldable pub parse_release_checksums : Text → ReleaseError ⊎ List (Text × Text)
unfolding scan_checksums require_agents
parse_release_checksums content = scan_checksums [] (split b'\n' content) then_do require_agents

unfoldable pub checksum_for_asset : Text → Text → ReleaseError ⊎ Text
unfolding parse_release_checksums
checksum_for_asset content asset = parse_release_checksums content then_do λ checksums.
    (let checksum = digest_of asset checksums in
      if is_empty checksum then inl no_checksum else inr checksum)
