-- ===== src/Windows/Release.antt =====
-- windows-agent/release_asset.go: the release from which the agent for Windows gets smartctl, and the
-- download of its installer.
pub mod Downloaded
use server_status.Base.{
  ℕ, zero, suc, ◌*◌, ◌^◌, ◌≤◌, ◌<◌, Bool, true, false, not, ◌&&◌, List, [], ◌∷◌, ◌++◌, Option, none,
  some, ◌⊎◌, inl, inr, if◌then◌else◌, ltb, leb, ◌==◌, length, ◌≡◌, ◌≢◌, refl, arith,
}
use server_status.Base.Checksums.{is_digest}
use server_status.Base.Text.{
  trim_slashes, Text, codes, text_eq, text_eq_iff, trim_space, to_lower, byte_len, is_empty,
}
use server_status.Server.Releases.{
  release_numbers, release_version_pattern, match_v, is_some, latest, valid_release_version,
}

-- `^windows-legacy-`
abbrev pub legacy_prefix : Text
legacy_prefix = codes "windows-legacy-"

unfoldable pub after_prefix : Text → Text → Option Text
after_prefix [] s = some s
after_prefix (c ∷ p) [] = none
after_prefix (c ∷ p) (d ∷ s) = if d == c then after_prefix p s else none

-- The group of releasedWindowsAgentPattern: the numbers to the end of the text, if they match.
unfoldable pub released_windows_agent : Text → Option Text
unfolding after_prefix
released_windows_agent version = elim (after_prefix legacy_prefix version) [
  | none ↦ none
  | some numbers ↦ if is_some (release_numbers numbers) then some numbers else none
]

abbrev pub version_or_latest : Option Text → Text
version_or_latest none = latest
version_or_latest (some numbers) = codes "v" ++ numbers

unfoldable pub smartctl_release_version : Text → Text
unfolding released_windows_agent
smartctl_release_version agent_version =
    version_or_latest (released_windows_agent (trim_space agent_version))

abbrev pub smartctl_release_asset : Text
smartctl_release_asset = codes "server-status-smartctl-windows-setup.exe"

abbrev pub max_dependency_bytes : ℕ
max_dependency_bytes = 64 * 2 ^ 20

pub data DependencyError : Type 0 where
  no_client invalid_digest no_directory no_temporary_file : DependencyError
  no_request not_downloaded refused too_long not_saved : DependencyError
  invalid_size wrong_digest not_synced not_closed : DependencyError

-- What an HTTP response has: its status, its length where that is known, the bytes of its body that
-- are read and written until its end or a failure, and whether that goes well.
pub record Response : Type 0 where
  pub status : ℕ
  pub content_length : Option ℕ
  pub body : List ℕ
  pub copies : Bool

-- What a download meets: whether each step succeeds, the response to an address, the SHA-256, and
-- whether the temporary file can be removed.
pub record Download : Type 0 where
  pub has_client : Bool
  pub makes_directory : Bool
  pub creates_temporary : Bool
  pub creates_request : Bool
  pub response : Text → Option Response
  pub sha256_hex : List ℕ → Text
  pub syncs : Bool
  pub closes : Bool
  pub removes : Bool

-- An error, and what the temporary file has at that point, once it is there.
abbrev pub Failure : Type 0
Failure = DependencyError × Option (List ℕ)

-- `strings.EqualFold` of hexadecimal digits
abbrev pub equal_fold : Text → Text → Bool
equal_fold s t = text_eq (to_lower s) (to_lower t)

infixl 5 ◌then_do◌
abbrev pub ◌then_do◌ : {A B : Type 0} → Failure ⊎ A → (A → Failure ⊎ B) → Failure ⊎ B
inl e then_do next = inl e
inr a then_do next = next a

abbrev pub require : Bool → Failure → Failure ⊎ Unit {0}
require true e = inr tt
require false e = inl e

-- What io.LimitReader leaves of a body.
unfoldable pub limited : ℕ → List ℕ → List ℕ
limited zero bytes = []
limited (suc n) [] = []
limited (suc n) (b ∷ bytes) = b ∷ limited n bytes

abbrev pub is_too_long : Option ℕ → Bool
is_too_long none = false
is_too_long (some n) = ltb max_dependency_bytes n

abbrev pub some_or {ℓ} : {A : Type ℓ} → Failure → Option A → Failure ⊎ A
some_or e none = inl e
some_or e (some a) = inr a

abbrev pub release_endpoint : Text → Text → Text → Text
release_endpoint server_url version asset =
    trim_slashes server_url ++ codes "/agent/releases/" ++ version ++ codes "/" ++ asset

-- The bytes written to the temporary file, once each check has passed.
unfoldable pub save_response : Download → Text → Response → Failure ⊎ List ℕ
unfolding limited
save_response w expected response =
    let bytes = limited (suc max_dependency_bytes) response.body in
    require (response.status == 200) (refused, some []) then_do λ ok.
    (require (not (is_too_long response.content_length)) (too_long, some []) then_do λ announced.
    (require response.copies (not_saved, some bytes) then_do λ copied.
    (require (ltb 0 (length bytes) && leb (length bytes) max_dependency_bytes)
        (invalid_size, some bytes)
      then_do λ size.
          (require (equal_fold (w.sha256_hex bytes) expected) (wrong_digest, some bytes)
            then_do λ equal.
                (require w.syncs (not_synced, some bytes) then_do λ synced.
                (require w.closes (not_closed, some bytes) then_do λ closed. inr bytes))))))

unfoldable pub fetch_dependency : Download → Text → Text → Text → Text → Failure ⊎ List ℕ
fetch_dependency w server_url version asset expected =
    require w.has_client (no_client, none) then_do λ client.
    (require (is_digest expected) (invalid_digest, none) then_do λ digest.
    (require w.makes_directory (no_directory, none) then_do λ made.
    (require w.creates_temporary (no_temporary_file, none) then_do λ created.
    (require w.creates_request (no_request, some []) then_do λ requested.
    (some_or (not_downloaded, some []) (w.response (release_endpoint server_url version asset))
      then_do λ response. save_response w expected response)))))

-- The error, and the file that is left in the directory: the deferred function removes it but on
-- success, and takes no notice of a removal that fails.
unfoldable pub kept : Download → Failure ⊎ List ℕ → Option DependencyError × Option (List ℕ)
kept w (inl (e, none)) = (some e, none)
kept w (inl (e, some bytes)) = (some e, if w.removes then none else some bytes)
kept w (inr bytes) = (none, some bytes)

unfoldable pub download_release_asset :
    Download → Text → Text → Text → Text → Option DependencyError × Option (List ℕ)
unfolding fetch_dependency kept
download_release_asset w server_url version asset expected =
    kept w (fetch_dependency w server_url version asset expected)

-- smartctlInstallerArguments, with filepath.Clean
unfoldable pub smartctl_installer_arguments : (Text → Text) → Text → Text → List Text
smartctl_installer_arguments clean architecture directory =
    codes "/S"
    ∷ codes "/SO"
    ∷ (codes "smartctl,drivedb,doc,"
        ++ (if text_eq architecture (codes "386") then codes "x32" else codes "x64"))
    ∷ (codes "/D=" ++ clean directory)
    ∷ []
