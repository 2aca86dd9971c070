-- ===== src/Windows/Release/Downloaded.antt =====
-- The version of smartctl's release, and what a download of windows-agent/release_asset.go leaves.
use server_status.Base.{
  ℕ, suc, [], Bool-cases, ◌≤◌, ◌<◌, Bool, true, false, not, ◌&&◌, List, ◌++◌, Option, none, some,
  ◌⊎◌, inl, inr, ltb, leb, ◌==◌, length, ◌≡◌, ◌≢◌, refl, arith,
}
use server_status.Base.Checksums.{is_digest}
use server_status.Base.Text.{Text, codes, text_eq, text_eq_iff, trim_space, to_lower, byte_len}
use server_status.Server.Releases.{
  release_numbers, release_version_pattern, match_v, is_some, valid_release_version,
}
use server_status.Windows.Release.{
  released_windows_agent, version_or_latest, smartctl_release_version, max_dependency_bytes,
  Failure, limited, no_client, invalid_digest, no_directory, no_temporary_file, no_request,
  not_downloaded, refused, too_long, not_saved, invalid_size, wrong_digest, not_synced, not_closed,
  Response, Download, equal_fold, ◌then_do◌, require, is_too_long, some_or, release_endpoint,
  save_response, fetch_dependency, kept, download_release_asset,
}

released_windows_agent-some :
    (version numbers : Text)
    → released_windows_agent version ≡ some numbers
    → is_some (release_numbers numbers) ≡ true
unfolding released_windows_agent
released_windows_agent-some version numbers h = ground arith

release_version_pattern-v :
    (numbers : Text)
    → is_some (release_numbers numbers) ≡ true
    → is_some (release_version_pattern (codes "v" ++ numbers)) ≡ true
unfolding release_version_pattern match_v
release_version_pattern-v numbers h = h

-- The server takes the version of the release from which the agent for Windows wants smartctl, unless
-- it is longer than 64 bytes.
pub smartctl_release_version-valid :
    (agent_version : Text)
    → byte_len (smartctl_release_version agent_version) ≤ 64
    → valid_release_version (smartctl_release_version agent_version) ≡ true
unfolding smartctl_release_version valid_release_version text_eq
smartctl_release_version-valid agent_version h =
    go (released_windows_agent (trim_space agent_version)) refl h
  where
    go :
        (o : Option Text)
        → released_windows_agent (trim_space agent_version) ≡ o
        → byte_len (version_or_latest o) ≤ 64
        → valid_release_version (version_or_latest o) ≡ true
    go none e l = refl
    go (some numbers) e l =
        let pattern =
          release_version_pattern-v numbers
            (released_windows_agent-some (trim_space agent_version) numbers e) in
        let small : leb (byte_len (codes "v" ++ numbers)) 64 ≡ true = ground (arith, l) in
        rw (small, pattern) (ground arith)

then_do-inr :
    {A B : Type 0} (m : Failure ⊎ A) (next : A → Failure ⊎ B) (b : B)
    → (m then_do next) ≡ inr b
    → (a : A) × (m ≡ inr a) × (next a ≡ inr b)
then_do-inr (inl e) next b h = absurd (ground (arith, h))
then_do-inr (inr a) next b h = (a, refl, h)

require-inr : (c : Bool) (e : Failure) (u : Unit {0}) → require c e ≡ inr u → c ≡ true
require-inr true e u h = refl
require-inr false e u h = absurd (ground (arith, h))

-- A file that is not empty, has at most 64 MiB, and has the digest that was expected, which is one of
-- 64 hexadecimal digits.
pub record IsSafe (w : Download) (expected : Text) (bytes : List ℕ) : Type 0 where
  pub not_empty : 0 < length bytes
  pub small : length bytes ≤ max_dependency_bytes
  pub valid_digest : is_digest expected ≡ true
  pub same_digest : to_lower (w.sha256_hex bytes) ≡ to_lower expected

within : (n limit : ℕ) → (ltb 0 n && leb n limit) ≡ true → (0 < n) × (n ≤ limit)
within n limit h = ground (arith, h)

save_response-IsSafe :
    (w : Download) (expected : Text) (response : Response) (bytes : List ℕ)
    → is_digest expected ≡ true
    → save_response w expected response ≡ inr bytes
    → IsSafe w expected bytes
unfolding save_response
save_response-IsSafe w expected response bytes digest h =
    let got = limited (suc max_dependency_bytes) response.body in
    let (_, _, h1) = then_do-inr (require (response.status == 200) (refused, some [])) _ bytes h in
    let (_, _, h2) =
      then_do-inr (require (not (is_too_long response.content_length)) (too_long, some [])) _ bytes
        h1 in
    let (_, _, h3) = then_do-inr (require response.copies (not_saved, some got)) _ bytes h2 in
    let (_, size, h4) =
      then_do-inr
        (require (ltb 0 (length got) && leb (length got) max_dependency_bytes)
          (invalid_size, some got))
        _ bytes h3 in
    let (_, equal, h5) =
      then_do-inr (require (equal_fold (w.sha256_hex got) expected) (wrong_digest, some got)) _
        bytes h4 in
    let (_, _, h6) = then_do-inr (require w.syncs (not_synced, some got)) _ bytes h5 in
    let (_, _, h7) = then_do-inr (require w.closes (not_closed, some got)) _ bytes h6 in
    let (not_empty, small) =
      within (length got) max_dependency_bytes (require-inr _ (invalid_size, some got) tt size) in
    let safe : IsSafe w expected got = record {
      not_empty = not_empty;
      small = small;
      valid_digest = digest;
      same_digest = (text_eq_iff _ _).0 (require-inr _ (wrong_digest, some got) tt equal);
    } in
    let same : got ≡ bytes = ground (arith, h7) in rw same at safe

fetch_dependency-IsSafe :
    (w : Download) (server_url version asset expected : Text) (bytes : List ℕ)
    → fetch_dependency w server_url version asset expected ≡ inr bytes
    → IsSafe w expected bytes
unfolding fetch_dependency
fetch_dependency-IsSafe w server_url version asset expected bytes h =
    let (_, _, h1) = then_do-inr (require w.has_client (no_client, none)) _ bytes h in
    let (_, digest, h2) =
      then_do-inr (require (is_digest expected) (invalid_digest, none)) _ bytes h1 in
    let (_, _, h3) = then_do-inr (require w.makes_directory (no_directory, none)) _ bytes h2 in
    let (_, _, h4) =
      then_do-inr (require w.creates_temporary (no_temporary_file, none)) _ bytes h3 in
    let (_, _, h5) = then_do-inr (require w.creates_request (no_request, some [])) _ bytes h4 in
    let (response, _, h6) =
      then_do-inr
        (some_or (not_downloaded, some []) (w.response (release_endpoint server_url version asset)))
        _ bytes h5 in
    save_response-IsSafe w expected response bytes (require-inr _ (invalid_digest, none) tt digest)
      h6

-- A download either fails, and leaves no file unless the removal of the temporary file fails, or
-- succeeds and leaves a file that is not empty, has at most 64 MiB, and has the digest that was
-- expected, which is one of 64 hexadecimal digits.
pub download_release_asset-IsSafe :
    (w : Download) (server_url version asset expected : Text)
    → (((download_release_asset w server_url version asset expected).0 ≢ none)
        × (((download_release_asset w server_url version asset expected).1 ≡ none)
            ⊎ (w.removes ≡ false)))
      ⊎ ((bytes : List ℕ) × (download_release_asset w server_url version asset expected
            ≡ (none, some bytes))
          × IsSafe w expected bytes)
unfolding download_release_asset kept
download_release_asset-IsSafe w server_url version asset expected =
    go (fetch_dependency w server_url version asset expected) refl
  where
    go :
        (o : Failure ⊎ List ℕ)
        → fetch_dependency w server_url version asset expected ≡ o
        → (((kept w o).0 ≢ none) × (((kept w o).1 ≡ none) ⊎ (w.removes ≡ false)))
          ⊎ ((bytes : List ℕ) × (kept w o ≡ (none, some bytes)) × IsSafe w expected bytes)
    go (inl (e, none)) h = inl (λ q. ground (arith, q), inl refl)
    go (inl (e, some bytes)) h = elim (Bool-cases w.removes) [
      | inl t ↦ inl (λ q. ground (arith, q), inl (rw t refl))
      | inr t ↦ inl (λ q. ground (arith, q), inr t)
    ]
    go (inr bytes) h =
        inr (bytes, refl, fetch_dependency-IsSafe w server_url version asset expected bytes h)
