-- ===== src/Agent/Updater.antt =====
-- internal/agent/updater.go: an agent replaces its executable by a newer one that the server has.
pub mod Applied
use server_status.Base.{
  ℕ, ◌*◌, ◌^◌, Bool, true, false, not, ◌&&◌, ◌||◌, List, [], ◌∷◌, ◌++◌, Option, none, some, ◌⊎◌,
  inl, inr, if◌then◌else◌, ltb, leb, ◌==◌, length,
}
use server_status.Base.Checksums.{fields, is_digest, max_token_size}
use server_status.Base.Decimal.{split}
use server_status.Base.Text.{
  Text, codes, text_eq, to_lower, is_space, byte_len, trim_space, is_empty,
}
use server_status.Version.Normal.{normalize}
use server_status.Version.Order.{Comparison, less, equal, greater, compare}

-- The errors of Apply, in the order in which it meets them.
pub data UpdateError : Type 0 where
  invalid_target not_comparable not_newer : UpdateError
  unsupported_system unsupported_architecture : UpdateError
  download_failed download_too_long : UpdateError
  unreadable_checksums no_checksum : UpdateError
  no_executable no_temporary_file : UpdateError
  not_written checksum_mismatch not_executable : UpdateError
  check_failed wrong_version not_replaced : UpdateError

-- What an update meets: the body of each download (`none` where the request fails or the status is not
-- 200), whether each step on the file system succeeds, and what a program prints for `--version`
-- (`none` where it fails).
pub record World : Type 0 where
  pub download : Text → Text → Option (List ℕ)
  pub text_of : List ℕ → Text
  pub sha256_hex : List ℕ → Text
  pub finds_executable : Bool
  pub creates_temporary : Bool
  pub writes : Bool
  pub changes_mode : Bool
  pub version_of : List ℕ → Option Text
  pub renames : Bool

pub record Updater : Type 0 where
  pub current_version : Text
  pub operating_system : Text
  pub architecture : Text

unfoldable pub update_asset_name : Text → Text → UpdateError ⊎ Text
update_asset_name system architecture =
    if not (text_eq system (codes "linux"))
    then inl unsupported_system
    else if text_eq architecture (codes "amd64") || text_eq architecture (codes "arm64")
    then inr (codes "server-status-agent-linux-" ++ architecture)
    else inl unsupported_architecture

-- The digest of a line that lists the asset.
unfoldable pub line_digest : Text → List Text → Option Text
unfolding is_digest
line_digest asset (digest ∷ name ∷ []) =
    if text_eq name asset && is_digest digest then some (to_lower digest) else none
line_digest asset _ = none

-- The loop over the lines; a line that is too long ends it with an error.
unfoldable pub scan_lines : Text → List Text → UpdateError ⊎ Text
unfolding line_digest
scan_lines asset [] = inl no_checksum
scan_lines asset (line ∷ lines) =
    let rest = scan_lines asset lines in
    if ltb (byte_len line) max_token_size
    then elim (line_digest asset (fields line)) [ some digest ↦ inr digest | none ↦ rest ]
    else inl unreadable_checksums

-- The lines of bufio.ScanLines; a carriage return at the end of one is a space to Fields.
unfoldable pub update_checksum_for_asset : Text → Text → UpdateError ⊎ Text
unfolding scan_lines
update_checksum_for_asset content asset = scan_lines asset (split b'\n' content)

abbrev pub max_update_binary_bytes : ℕ
max_update_binary_bytes = 64 * 2 ^ 20

abbrev pub max_update_checksums_bytes : ℕ
max_update_checksums_bytes = 2 ^ 20

-- downloadBytes, and downloadBinary without its digest.
unfoldable pub download_bytes : World → Text → Text → ℕ → UpdateError ⊎ List ℕ
download_bytes w version asset limit = elim (w.download version asset) [
  | none ↦ inl download_failed
  | some body ↦ if ltb limit (length body) then inl download_too_long else inr body
]

unfoldable pub verify_update_version : World → List ℕ → Text → Option UpdateError
verify_update_version w binary expected = elim (w.version_of binary) [
  | none ↦ some check_failed
  | some output ↦ elim (normalize (trim_space output)) [
    | none ↦ some wrong_version
    | some actual ↦ if text_eq actual expected then none else some wrong_version
  ]
]

-- `if err != nil { return err }`
infixl 5 ◌then_do◌
abbrev pub ◌then_do◌ : {A B : Type 0} → UpdateError ⊎ A → (A → UpdateError ⊎ B) → UpdateError ⊎ B
inl e then_do next = inl e
inr a then_do next = next a

abbrev pub require : Bool → UpdateError → UpdateError ⊎ Unit {0}
require true e = inr tt
require false e = inl e

abbrev or_success : Option UpdateError → UpdateError ⊎ Unit {0}
or_success none = inr tt
or_success (some e) = inl e

-- The target's normal form, where it is newer than the current version.
unfoldable pub check_target : Text → Text → UpdateError ⊎ Text
check_target current raw = elim (normalize raw) [
  | none ↦ inl invalid_target
  | some target ↦ elim (compare current target) [
    | none ↦ inl not_comparable
    | some less ↦ inr target
    | some equal ↦ inl not_newer
    | some greater ↦ inl not_newer
  ]
]

-- What Apply does with a target that it accepts: the new executable, or its error.
unfoldable pub fetch_update : World → Updater → Text → UpdateError ⊎ List ℕ
unfolding update_asset_name update_checksum_for_asset download_bytes verify_update_version
fetch_update w updater target =
    update_asset_name updater.operating_system updater.architecture then_do λ asset.
    (download_bytes w target (codes "checksums.txt") max_update_checksums_bytes then_do λ checksums.
    (update_checksum_for_asset (w.text_of checksums) asset then_do λ expected.
    (require w.finds_executable no_executable then_do λ found.
    (require w.creates_temporary no_temporary_file then_do λ created.
    (download_bytes w target asset max_update_binary_bytes then_do λ binary.
    (require w.writes not_written then_do λ written.
    (require (text_eq (w.sha256_hex binary) expected) checksum_mismatch then_do λ equal.
    (require w.changes_mode not_executable then_do λ mode.
    (or_success (verify_update_version w binary target) then_do λ checked.
    (require w.renames not_replaced then_do λ renamed. inr binary))))))))))

abbrev pub installed : List ℕ → UpdateError ⊎ List ℕ → Option UpdateError × List ℕ
installed executable (inl e) = (some e, executable)
installed executable (inr binary) = (none, binary)

-- Apply on the content of the agent's executable: the error, and the content afterwards.
unfoldable pub apply : World → Updater → Text → List ℕ → Option UpdateError × List ℕ
unfolding check_target fetch_update
apply w updater raw executable =
    installed executable
      (check_target updater.current_version raw then_do λ target. fetch_update w updater target)
