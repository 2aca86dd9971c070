-- ===== src/Server/ReleaseTests.antt =====
-- Runs of internal/server/release_cache.go, and its theorems at concrete values.
use server_status.Base.{
  ℕ, ◌==◌, true, false, List, [], ◌∷◌, ◌++◌, some, inr, ◌≡◌, refl, if◌then◌else◌,
}
use server_status.Base.Checksums.{fields, is_digest, all_hex}
use server_status.Base.Decimal.{split}
use server_status.Base.Dict.{get, put, delete, retain}
use server_status.Base.Text.{
  Text, codes, text_eq, trim_space, trim_left, trim_right, is_space, to_lower, byte_len, contains,
}
use server_status.Version.Parse.{
  take_digits, match_dot, match_suffix, all_identifier_chars, is_identifier_char,
}
use server_status.Agent.Updater.{line_digest, scan_lines, update_checksum_for_asset}
use server_status.Server.Releases.{
  match_digits, match_v, release_numbers, release_version_pattern, valid_release_version,
  valid_release_asset, add_listed, scan_checksums, digest_of, require_agents,
  parse_release_checksums, checksum_for_asset, linux_amd64, linux_arm64,
}
use server_status.Server.Releases.Files.{
  Place, missing, Disk, Transfer, World, ReleaseCache, same_place, write, upstream_url,
  response_body, received, download_file, ensure_file, read_file, remove_file, verify_release_asset,
}
use server_status.Server.Releases.Cache.{
  latest_digest, expected_again, verified_path, fetch_again, listed_asset, valid_checksums,
  cached_asset_path, inspect_bundled, verified_bundled, bundled_listed, has_bundled, asset_path,
  Headers, served, is_bundled_path, headers_of, open_asset, serve,
}
use server_status.Server.Releases.Paths.{IsServed}
use server_status.Server.Releases.Served.{serve-IsServed}
use server_status.Server.Releases.Agreed.{listed_digests, checksum_for_asset-agreed}
use server_status.Server.Releases.Names.{is_file_name, valid_release-IsFileName}

unfoldable program : Unit {0}
unfolding fields is_digest all_hex split get put delete retain text_eq trim_space trim_left
    trim_right is_space to_lower byte_len contains take_digits match_dot match_suffix
    all_identifier_chars is_identifier_char line_digest scan_lines update_checksum_for_asset
    match_digits match_v release_numbers release_version_pattern valid_release_version
    valid_release_asset add_listed scan_checksums digest_of require_agents parse_release_checksums
    checksum_for_asset same_place write upstream_url response_body received download_file
    ensure_file read_file remove_file verify_release_asset latest_digest expected_again
    verified_path fetch_again listed_asset valid_checksums cached_asset_path inspect_bundled
    verified_bundled bundled_listed has_bundled asset_path is_bundled_path headers_of open_asset
    serve listed_digests
program = tt

abbrev digest : Text
digest = codes "00112233445566778899aabbccddeeff00112233445566778899aabbccddeeff"

abbrev sums : Text
sums =
    digest
    ++ codes "  "
    ++ linux_amd64
    ++ codes "\n"
    ++ digest
    ++ codes "  "
    ++ linux_arm64
    ++ codes "\n"

abbrev version : Text
version = codes "v1.2.3"

abbrev cache : ReleaseCache
cache = record {
  bundled_directory = codes "/usr/local/share/server-status/agent-releases";
  upstream_base = codes "https://github.com/guohai163/server-status/releases";
  latest_ttl = 600;
}

abbrev good : List ℕ → Transfer
good body = record {
  makes_directory = true;
  creates_temporary = true;
  creates_request = true;
  response = some (200, some body);
  syncs = true;
  closes = true;
  changes_mode = true;
  makes_version_directory = true;
  renames = true;
}

abbrev binary : List ℕ
binary = 127 ∷ 69 ∷ []

-- The checksums are fetched first.
abbrev world : World
world = record {
  transfer = λ attempt url. if attempt == 0 then good sums else good binary;
  now = 1000;
  removes = true;
  text_of = λ bytes. bytes;
  sha256_hex = λ bytes. digest;
}

abbrev nothing : Disk
nothing place = missing

abbrev fetched : Headers
fetched = record {
  content_type = codes "application/octet-stream";
  content_disposition = codes "attachment; filename=\"server-status-agent-linux-amd64\"";
  cache_status = codes "MISS";
  cache_control = codes "public, max-age=31536000, immutable";
}

serves :
    serve world cache version linux_amd64 nothing
    ≡ (served fetched binary, (serve world cache version linux_amd64 nothing).1)
unfolding program
serves = refl

serve-IsServed_example :
    (valid_release_version version ≡ true)
    × (valid_release_asset linux_amd64 ≡ true)
    × ((p : Place) × IsServed world version linux_amd64 p binary
          (serve world cache version linux_amd64 nothing).1)
serve-IsServed_example =
    serve-IsServed world cache version linux_amd64 nothing fetched binary
      (serve world cache version linux_amd64 nothing).1 serves

is_listed : checksum_for_asset sums linux_amd64 ≡ inr digest
unfolding program
is_listed = refl

is_asset : valid_release_asset linux_amd64 ≡ true
unfolding program
is_asset = refl

is_other : text_eq linux_amd64 (codes "checksums.txt") ≡ false
unfolding program
is_other = refl

is_version : valid_release_version version ≡ true
unfolding program
is_version = refl

checksum_for_asset-agreed_example : update_checksum_for_asset sums linux_amd64 ≡ inr digest
unfolding program
checksum_for_asset-agreed_example =
    checksum_for_asset-agreed linux_amd64 is_asset is_other sums digest is_listed (refl, tt)

valid_release-IsFileName_example : (is_file_name version ≡ true) × (is_file_name linux_amd64 ≡ true)
valid_release-IsFileName_example = valid_release-IsFileName version linux_amd64 is_version is_asset

-- The first line counts for the agent, and the last for the server.
abbrev other_digest : Text
other_digest = codes "ffeeddccbbaa99887766554433221100ffeeddccbbaa99887766554433221100"

abbrev twice : Text
twice = sums ++ other_digest ++ codes "  " ++ linux_amd64

reads_last : checksum_for_asset twice linux_amd64 ≡ inr other_digest
unfolding program
reads_last = refl

reads_first : update_checksum_for_asset twice linux_amd64 ≡ inr digest
unfolding program
reads_first = refl
