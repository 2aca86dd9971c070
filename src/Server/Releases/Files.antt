-- ===== src/Server/Releases/Files.antt =====
-- The files of releaseCache in internal/server/release_cache.go: ensureFile, downloadFile and
-- verifyReleaseAsset over the files below its two directories, which are apart.
use server_status.Base.{
  ℕ, ◌+◌, ◌*◌, ◌^◌, Bool, true, false, not, ◌&&◌, ◌||◌, List, ◌++◌, Option, none, some, ◌⊎◌, inl,
  inr, if◌then◌else◌, ltb, ◌==◌, length,
}
use server_status.Base.Text.{Text, codes, text_eq}
use server_status.Server.Releases.{
  ReleaseError, inspect_failed, no_directory, no_temporary_file, no_request, download_failed,
  refused, interrupted, too_long, not_synced, not_closed, not_chmodded, not_published, read_failed,
  not_verified, latest, checksums_txt, ◌then_do◌,
}

-- `filepath.Join(directory, version, asset)` of one of the two directories.
pub record Place : Type 0 where
  pub is_bundled : Bool
  pub version : Text
  pub asset : Text

abbrev pub cached_place : Text → Text → Place
cached_place version asset = record { is_bundled = false; version = version; asset = asset }

abbrev pub bundled_place : Text → Text → Place
bundled_place version asset = record { is_bundled = true; version = version; asset = asset }

pub record File : Type 0 where
  pub content : List ℕ
  pub modified : ℕ
  pub is_regular : Bool
  pub is_readable : Bool

-- What os.Stat finds: os.ErrNotExist, another error, or a file.
pub data Entry : Type 0 where
  missing unknown : Entry
  file : File → Entry

abbrev pub Disk : Type 0
Disk = Place → Entry

abbrev same_bool : Bool → Bool → Bool
same_bool true b = b
same_bool false b = not b

unfoldable pub same_place : Place → Place → Bool
same_place p q =
    same_bool p.is_bundled q.is_bundled && (text_eq p.version q.version && text_eq p.asset q.asset)

unfoldable pub write : Place → Entry → Disk → Disk
unfolding same_place
write p entry disk q = if same_place p q then entry else disk q

-- What one download meets: whether each step succeeds, and the status and the body of the response
-- (`none` where the request, or the copy of the body up to the limit, fails).
pub record Transfer : Type 0 where
  pub makes_directory : Bool
  pub creates_temporary : Bool
  pub creates_request : Bool
  pub response : Option (ℕ × Option (List ℕ))
  pub syncs : Bool
  pub closes : Bool
  pub changes_mode : Bool
  pub makes_version_directory : Bool
  pub renames : Bool

-- What a request meets: the transfers by the number of the attempt and the address, the time, whether
-- os.Remove succeeds, and the functions of the libraries.
pub record World : Type 0 where
  pub transfer : ℕ → Text → Transfer
  pub now : ℕ
  pub removes : Bool
  pub text_of : List ℕ → Text
  pub sha256_hex : List ℕ → Text

pub record ReleaseCache : Type 0 where
  pub bundled_directory : Text
  pub upstream_base : Text
  pub latest_ttl : ℕ

abbrev pub max_release_asset_bytes : ℕ
max_release_asset_bytes = 64 * 2 ^ 20

abbrev pub max_checksums_bytes : ℕ
max_checksums_bytes = 2 ^ 20

abbrev pub require : Bool → ReleaseError → ReleaseError ⊎ Unit {0}
require true e = inr tt
require false e = inl e

unfoldable pub upstream_url : ReleaseCache → Text → Text → Text
upstream_url cache version asset =
    if text_eq version latest
    then cache.upstream_base ++ codes "/latest/download/" ++ asset
    else cache.upstream_base ++ codes "/download/" ++ version ++ codes "/" ++ asset

abbrev pub limit_of : Text → ℕ
limit_of asset =
    if text_eq asset checksums_txt then max_checksums_bytes else max_release_asset_bytes

unfoldable pub response_body : ℕ → Option (ℕ × Option (List ℕ)) → ReleaseError ⊎ List ℕ
response_body limit none = inl download_failed
response_body limit (some (status, body)) =
    if status == 200
    then elim body [
      | none ↦ inl interrupted
      | some bytes ↦ if ltb limit (length bytes) then inl too_long else inr bytes
    ]
    else inl refused

-- The bytes that a download publishes.
unfoldable pub received : Transfer → ℕ → ReleaseError ⊎ List ℕ
unfolding response_body
received t limit = require t.makes_directory no_directory then_do λ made.
    (require t.creates_temporary no_temporary_file then_do λ created.
    (require t.creates_request no_request then_do λ requested.
    (response_body limit t.response then_do λ bytes.
    (require t.syncs not_synced then_do λ synced.
    (require t.closes not_closed then_do λ closed.
    (require t.changes_mode not_chmodded then_do λ mode.
    (require t.makes_version_directory no_directory then_do λ below.
    (require t.renames not_published then_do λ renamed. inr bytes))))))))

abbrev pub M : Type 0 → Type 0
M A = Disk → (ReleaseError ⊎ A) × Disk

abbrev pub and_then :
    {A B : Type 0} → (ReleaseError ⊎ A) × Disk → (A → M B) → (ReleaseError ⊎ B) × Disk
and_then (inl e, disk) f = (inl e, disk)
and_then (inr a, disk) f = f a disk

infixl 5 ◌>>=◌ ◌>>◌
abbrev pub ◌>>=◌ : {A B : Type 0} → M A → (A → M B) → M B
◌>>=◌ m f disk = and_then (m disk) f

abbrev pub ◌>>◌ : {A B : Type 0} → M A → M B → M B
m >> k = m >>= λ _. k

abbrev pub fail : {A : Type 0} → ReleaseError → M A
fail e disk = (inl e, disk)

abbrev pub return : {A : Type 0} → A → M A
return a disk = (inr a, disk)

abbrev pub lift : {A : Type 0} → ReleaseError ⊎ A → M A
lift r disk = (r, disk)

abbrev published : World → Place → ReleaseError ⊎ List ℕ → M (Unit {0})
published w place (inl e) disk = (inl e, disk)
published w place (inr bytes) disk =
    let new : File = record {
      content = bytes;
      modified = w.now;
      is_regular = true;
      is_readable = true;
    } in
    (inr tt, write place (file new) disk)

-- The rename replaces what stood at the destination.
unfoldable pub download_file : World → ReleaseCache → ℕ → Text → Text → M (Unit {0})
unfolding upstream_url received write
download_file w cache attempt version asset =
    published w (cached_place version asset)
      (received (w.transfer attempt (upstream_url cache version asset)) (limit_of asset))

-- `info.Mode().IsRegular() && info.Size() > 0`
abbrev pub is_usable : File → Bool
is_usable f = f.is_regular && ltb 0 (length f.content)

abbrev pub within_ttl : World → ReleaseCache → Text → File → Bool
within_ttl w cache version f =
    not (text_eq version latest) || ltb w.now (f.modified + cache.latest_ttl)

-- A failed download is no error where a stale file is there; the result says whether it was a hit.
abbrev refreshed : Bool → (ReleaseError ⊎ Unit {0}) × Disk → (ReleaseError ⊎ Bool) × Disk
refreshed stale (inr done, disk) = (inr false, disk)
refreshed stale (inl e, disk) = if stale then (inr true, disk) else (inl e, disk)

unfoldable pub ensure_file : World → ReleaseCache → ℕ → Text → Text → M Bool
unfolding download_file
ensure_file w cache attempt version asset disk =
    let download = download_file w cache attempt version asset disk in
    elim (disk (cached_place version asset)) [
      | missing ↦ refreshed false download
      | unknown ↦ (inl inspect_failed, disk)
      | file f ↦
          if is_usable f
          then (if within_ttl w cache version f then (inr true, disk) else refreshed true download)
          else refreshed false download
    ]

-- os.ReadFile, and os.Open with io.ReadAll.
unfoldable pub read_file : Place → M (List ℕ)
read_file place disk = elim (disk place) [
  | missing ↦ (inl read_failed, disk)
  | unknown ↦ (inl read_failed, disk)
  | file f ↦ if f.is_readable then (inr f.content, disk) else (inl read_failed, disk)
]

-- `_ = os.Remove(path)`
unfoldable pub remove_file : World → Place → M (Unit {0})
unfolding write
remove_file w place disk = (inr tt, if w.removes then write place missing disk else disk)

unfoldable pub verify_release_asset : World → Place → Text → M (Unit {0})
unfolding read_file
verify_release_asset w place expected = do
  content ← read_file place
  if text_eq (w.sha256_hex content) expected then return tt else fail not_verified

-- `if err := m; err != nil { handle }`
abbrev pub handled :
    {A : Type 0} → (ReleaseError → M A) → (ReleaseError ⊎ A) × Disk → (ReleaseError ⊎ A) × Disk
handled handle (inl e, disk) = handle e disk
handled handle (inr a, disk) = (inr a, disk)

abbrev pub or_else : {A : Type 0} → M A → (ReleaseError → M A) → M A
or_else m handle disk = handled handle (m disk)

-- `_ = os.Remove(path); return err`
abbrev pub remove_and_fail : {A : Type 0} → World → Place → ReleaseError → M A
remove_and_fail w place e = remove_file w place >> fail e
