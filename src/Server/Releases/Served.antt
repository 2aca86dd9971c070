-- ===== src/Server/Releases/Served.antt =====
-- What the release cache of internal/server/release_cache.go serves.
use mathlib.Core.Path.{subst}
use server_status.Base.{
  ℕ, Bool, true, ◌&&◌, List, ◌⊎◌, inl, inr, ◌≡◌, refl, ap, ◌∙◌, arith, Bool-cases,
}
use server_status.Base.Text.{Text}
use server_status.Server.Releases.{ReleaseError, valid_release_version, valid_release_asset}
use server_status.Server.Releases.Files.{Place, Disk, World, ReleaseCache, read_file}
use server_status.Server.Releases.Cache.{
  asset_path, Headers, Answer, served, open_asset, answer_of, serve,
}
use server_status.Server.Releases.Steps.{and_then-inr, read_file-inr, Reads}
use server_status.Server.Releases.Paths.{IsServed, asset_path-IsServed}

module _ (w : World) (cache : ReleaseCache) (version asset : Text) where
  answer_of-served :
      (r : (ReleaseError ⊎ (Headers × List ℕ)) × Disk) (headers : Headers) (content : List ℕ)
      (d' : Disk)
      → answer_of r ≡ (served headers content, d')
      → r ≡ (inr (headers, content), d')
  answer_of-served (inl e, d) headers content d' h = absurd (ground (arith, h))
  answer_of-served (inr (hs, c), d) headers content d' h =
      let same : hs ≡ headers = ground (arith, h) in
      let body : c ≡ content = ground (arith, h) in
      let disk : d ≡ d' = ap (λ (x : Answer × Disk). x.1) h in rw (same, body, disk) refl

  Reads-same : (p : Place) (a b : List ℕ) (d : Disk) → Reads p a d → Reads p b d → a ≡ b
  Reads-same p a b d (f, at, same) (g, at', same') = ground arith

  open_asset-IsServed :
      (found : Place × Bool) (d : Disk) (headers : Headers) (content : List ℕ) (d' : Disk)
      → (c : List ℕ) × IsServed w version asset found.0 c d
      → open_asset cache version asset found d ≡ (inr (headers, content), d')
      → IsServed w version asset found.0 content d'
  unfolding open_asset
  open_asset-IsServed (p, hit) d headers content d' (c, s) h =
      let (got, d1, r, h1) = and_then-inr (read_file p d) _ (headers, content) d' h in
      let (f, at, same, still) = read_file-inr p d got d1 r in
      let body : got ≡ content = ground (arith, h1) in
      let last : d1 ≡ d' = ap (λ (x : (ReleaseError ⊎ (Headers × List ℕ)) × Disk). x.1) h1 in
      let read : Reads p content d = (f, at, same ∙ body) in
      let equal : c ≡ content = Reads-same p c content d s.reads read in
      subst (λ x. IsServed w version asset p content x) (still ∙ last)
        (subst (λ x. IsServed w version asset p x d) equal s)

  -- A file that is served belongs to a valid release and is the asset that was asked for, from the
  -- image or from the cache; beside it lie checksums that list the digest of what was sent, and where
  -- the checksums are asked for, what was sent parses as checksums with digests for both Linux agents.
  pub serve-IsServed :
      (d : Disk) (headers : Headers) (content : List ℕ) (d' : Disk)
      → serve w cache version asset d ≡ (served headers content, d')
      → (valid_release_version version ≡ true)
        × (valid_release_asset asset ≡ true)
        × ((p : Place) × IsServed w version asset p content d')
  unfolding serve
  serve-IsServed d headers content d' h =
      elim (Bool-cases (valid_release_version version && valid_release_asset asset)) [
        | inl v ↦
            let k = answer_of-served _ headers content d' (rw v at h) in
            let (found, d1, a, o) =
              and_then-inr (asset_path w cache version asset d) _ (headers, content) d' k in
            (
              ground (arith, v),
              ground (arith, v),
              (
                found.0,
                open_asset-IsServed found d1 headers content d'
                    (asset_path-IsServed w cache version asset d found d1 a) o,
              ),
            )
        | inr v ↦ absurd (ground (arith, rw v at h))
      ]
