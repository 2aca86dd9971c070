-- ===== src/Server/Releases/Cache.antt =====
-- assetPath and serve of internal/server/release_cache.go. A request runs alone: the mutex of the cache
-- is not modelled.
use server_status.Base.{ℕ, Bool, true, false, not, ◌&&◌, List, ◌++◌, ◌⊎◌, inl, inr, if◌then◌else◌}
use server_status.Base.Text.{Text, codes, text_eq, is_blank}
use server_status.Server.Releases.{
  ReleaseError, inspect_failed, not_regular, latest, checksums_txt, valid_release_version,
  valid_release_asset, parse_release_checksums, checksum_for_asset,
}
use server_status.Server.Releases.Files.{
  Place, missing, unknown, file, Disk, World, ReleaseCache, M, ◌>>=◌, ◌>>◌, return, lift, is_usable,
  ensure_file, read_file, remove_file, verify_release_asset, or_else, remove_and_fail, cached_place,
  bundled_place,
}

unfoldable pub latest_digest : World → ReleaseCache → Text → Text → M Text
latest_digest w cache version asset = do
  remove_file w (cached_place version checksums_txt)
  hit ← ensure_file w cache 2 version checksums_txt
  checksums ← read_file (cached_place version checksums_txt)
  lift (checksum_for_asset (w.text_of checksums) asset)

-- Where the asset of the latest release is not the one listed, its checksums are fetched again.
unfoldable pub expected_again : World → ReleaseCache → Text → Text → Text → M Text
expected_again w cache version asset expected =
    if text_eq version latest then latest_digest w cache version asset else return expected

-- `if err := verifyReleaseAsset(path, expected); err == nil { return path, hit, nil }`
unfoldable pub verified_path : World → Place → Text → Bool → M (Place × Bool)
verified_path w place expected hit = verify_release_asset w place expected >> return (place, hit)

-- The second attempt, after the asset has failed its verification.
unfoldable pub fetch_again : World → ReleaseCache → Text → Text → Text → M (Place × Bool)
fetch_again w cache version asset expected = do
  remove_file w (cached_place version asset)
  digest ← expected_again w cache version asset expected
  hit ← ensure_file w cache 3 version asset
  or_else (verified_path w (cached_place version asset) digest false)
      (remove_and_fail w (cached_place version asset))

unfoldable pub listed_asset : World → ReleaseCache → Text → Text → Bool → List ℕ → M (Place × Bool)
listed_asset w cache version asset checksums_hit checksums = do
  expected ←
      or_else (lift (checksum_for_asset (w.text_of checksums) asset))
        (remove_and_fail w (cached_place version checksums_txt))
  asset_hit ← ensure_file w cache 1 version asset
  or_else (verified_path w (cached_place version asset) expected (checksums_hit && asset_hit))
      (λ e. fetch_again w cache version asset expected)

unfoldable pub valid_checksums : World → Text → Bool → List ℕ → M (Place × Bool)
valid_checksums w version hit checksums = do
  parsed ←
      or_else (lift (parse_release_checksums (w.text_of checksums)))
        (remove_and_fail w (cached_place version checksums_txt))
  return (cached_place version checksums_txt, hit)

-- assetPath below the lock.
unfoldable pub cached_asset_path : World → ReleaseCache → Text → Text → M (Place × Bool)
cached_asset_path w cache version asset = do
  hit ← ensure_file w cache 0 version checksums_txt
  checksums ← read_file (cached_place version checksums_txt)
  if text_eq asset checksums_txt
      then valid_checksums w version hit checksums
      else listed_asset w cache version asset hit checksums

-- A file of the image must be there, regular and not empty.
unfoldable pub inspect_bundled : Place → M (Unit {0})
inspect_bundled place disk = elim (disk place) [
  | missing ↦ (inl inspect_failed, disk)
  | unknown ↦ (inl inspect_failed, disk)
  | file f ↦ if is_usable f then (inr tt, disk) else (inl not_regular, disk)
]

unfoldable pub verified_bundled : World → Text → Text → List ℕ → M (Place × Bool)
verified_bundled w version asset checksums = do
  expected ← lift (checksum_for_asset (w.text_of checksums) asset)
  inspect_bundled (bundled_place version asset)
  verify_release_asset w (bundled_place version asset) expected
  return (bundled_place version asset, true)

unfoldable pub bundled_listed : World → Text → Text → M (Place × Bool)
bundled_listed w version asset = do
  inspect_bundled (bundled_place version checksums_txt)
  checksums ← read_file (bundled_place version checksums_txt)
  parsed ← lift (parse_release_checksums (w.text_of checksums))
  if text_eq asset checksums_txt
      then return (bundled_place version checksums_txt, true)
      else verified_bundled w version asset checksums

-- Whether the image has a release: its checksums exist, or cannot be inspected.
unfoldable pub has_bundled : ReleaseCache → Text → Disk → Bool
has_bundled cache version disk =
    not (is_blank cache.bundled_directory) && elim (disk (bundled_place version checksums_txt)) [
      | missing ↦ false
      | unknown ↦ true
      | file f ↦ true
    ]

-- A release of the image comes first, also with its errors.
unfoldable pub asset_path : World → ReleaseCache → Text → Text → M (Place × Bool)
asset_path w cache version asset disk =
    if has_bundled cache version disk
    then bundled_listed w version asset disk
    else cached_asset_path w cache version asset disk

pub record Headers : Type 0 where
  pub content_type : Text
  pub content_disposition : Text
  pub cache_status : Text
  pub cache_control : Text

-- The answer to a request without ranges and conditions; the text of an error is left out.
pub data Answer : Type 0 where
  not_found bad_gateway : Answer
  served : Headers → List ℕ → Answer

unfoldable pub is_bundled_path : ReleaseCache → Place → Bool
is_bundled_path cache place = not (is_blank cache.bundled_directory) && place.is_bundled

unfoldable pub headers_of : ReleaseCache → Text → Text → Place → Bool → Headers
headers_of cache version asset place hit = record {
  content_type =
      if text_eq asset checksums_txt
      then codes "text/plain; charset=utf-8"
      else codes "application/octet-stream";
  content_disposition = codes "attachment; filename=\"" ++ asset ++ codes "\"";
  cache_status =
      if is_bundled_path cache place
      then codes "BUNDLED"
      else if hit
      then codes "HIT"
      else codes "MISS";
  cache_control =
      if text_eq version latest
      then codes "public, max-age=300"
      else codes "public, max-age=31536000, immutable";
}

-- The file is opened after the lock is released.
unfoldable pub open_asset : ReleaseCache → Text → Text → Place × Bool → M (Headers × List ℕ)
open_asset cache version asset (place, hit) = do
  content ← read_file place
  return (headers_of cache version asset place hit, content)

abbrev pub answer_of : (ReleaseError ⊎ (Headers × List ℕ)) × Disk → Answer × Disk
answer_of (inl e, disk) = (bad_gateway, disk)
answer_of (inr (headers, content), disk) = (served headers content, disk)

unfoldable pub serve : World → ReleaseCache → Text → Text → Disk → Answer × Disk
serve w cache version asset disk =
    if valid_release_version version && valid_release_asset asset
    then answer_of ((asset_path w cache version asset >>= open_asset cache version asset) disk)
    else (not_found, disk)
