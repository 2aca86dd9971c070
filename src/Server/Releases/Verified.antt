-- ===== src/Server/Releases/Verified.antt =====
-- The steps of assetPath in internal/server/release_cache.go that succeed, and what they leave in the
-- directories.
use server_status.Base.{
  ℕ, Bool, false, ◌&&◌, List, ◌⊎◌, inl, inr, ◌≡◌, sym, ap, ◌∙◌, arith, Bool-cases,
}
use server_status.Base.Text.{Text, text_eq}
use server_status.Server.Releases.{ReleaseError, latest, checksums_txt, checksum_for_asset}
use server_status.Server.Releases.Files.{
  Place, Disk, World, ReleaseCache, ensure_file, read_file, remove_file, verify_release_asset,
  or_else, lift, remove_and_fail, cached_place,
}
use server_status.Server.Releases.Cache.{
  expected_again, latest_digest, verified_path, fetch_again, listed_asset,
}
use server_status.Server.Releases.Steps.{
  and_then-inr, handled-inr, remove_and_fail-inr, read_file-inr, verify_release_asset-inr, Reads,
  HasDigest, ensure_file-other, remove_file-other, same_place-cached_place, same_place-cached_place,
}

-- The checksums in a directory list a digest for an asset.
abbrev pub Lists : World → Place → Text → Text → Disk → Type 0
Lists w p asset digest d =
    (sums : List ℕ) × Reads p sums d × (checksum_for_asset (w.text_of sums) asset ≡ inr digest)

Lists-of_same :
    (w : World) (p : Place) (asset digest : Text) (d d' : Disk)
    → d' p ≡ d p
    → Lists w p asset digest d
    → Lists w p asset digest d'
Lists-of_same w p asset digest d d' same (sums, (f, at, content), lists) =
    (sums, (f, same ∙ at, content), lists)

latest_digest-Lists :
    (w : World) (cache : ReleaseCache) (version asset : Text) (d : Disk) (digest : Text) (d' : Disk)
    → latest_digest w cache version asset d ≡ (inr digest, d')
    → Lists w (cached_place version checksums_txt) asset digest d'
unfolding latest_digest
latest_digest-Lists w cache version asset d digest d' h =
    let (_, d1, _, h1) =
      and_then-inr (remove_file w (cached_place version checksums_txt) d) _ digest d' h in
    let (_, d2, _, h2) =
      and_then-inr (ensure_file w cache 2 version checksums_txt d1) _ digest d' h1 in
    let (sums, d3, r, h3) =
      and_then-inr (read_file (cached_place version checksums_txt) d2) _ digest d' h2 in
    let (f, at, same, still) = read_file-inr (cached_place version checksums_txt) d2 sums d3 r in
    let last : d3 ≡ d' = ap (λ (x : (ReleaseError ⊎ Text) × Disk). x.1) h3 in
    let lists : checksum_for_asset (w.text_of sums) asset ≡ inr digest =
      ap (λ (x : (ReleaseError ⊎ Text) × Disk). x.0) h3 in
    let found : Lists w (cached_place version checksums_txt) asset digest d2 =
      (sums, (f, at, same), lists) in
    rw (still ∙ last) at found

expected_again-Lists :
    (w : World) (cache : ReleaseCache) (version asset expected : Text) (d : Disk) (digest : Text)
    (d' : Disk)
    → expected_again w cache version asset expected d ≡ (inr digest, d')
    → Lists w (cached_place version checksums_txt) asset expected d
    → Lists w (cached_place version checksums_txt) asset digest d'
unfolding expected_again
expected_again-Lists w cache version asset expected d digest d' h old =
    elim (Bool-cases (text_eq version latest)) [
      | inl t ↦ latest_digest-Lists w cache version asset d digest d' (rw t at h)
      | inr t ↦
          let k = rw t at h in
          let same : expected ≡ digest = ground (arith, k) in
          let still : d ≡ d' = ap (λ (x : (ReleaseError ⊎ Text) × Disk). x.1) k in
          rw (same, still) at old
    ]

-- An asset of a directory has the digest that the checksums beside it list for it.
abbrev pub Verified : World → Place → Place → Text → Disk → Type 0
Verified w p sums asset d = (digest : Text) × Lists w sums asset digest d × HasDigest w p digest d

module _ (w : World) (cache : ReleaseCache) (version asset : Text)
    (other : text_eq asset checksums_txt ≡ false) where
  verified_path-Verified :
      (digest : Text) (hit : Bool) (d : Disk) (found : Place × Bool) (d' : Disk)
      → verified_path w (cached_place version asset) digest hit d ≡ (inr found, d')
      → Lists w (cached_place version checksums_txt) asset digest d
      → (found.0 ≡ cached_place version asset)
        × Verified w (cached_place version asset) (cached_place version checksums_txt) asset d'
  unfolding verified_path
  verified_path-Verified digest hit d found d' h lists =
      let (u, d1, v, h1) =
        and_then-inr (verify_release_asset w (cached_place version asset) digest d) _ found d' h in
      let (has, still) = verify_release_asset-inr w (cached_place version asset) digest d u d1 v in
      let last : d1 ≡ d' = ap (λ (x : (ReleaseError ⊎ (Place × Bool)) × Disk). x.1) h1 in
      let verified : Verified w (cached_place version asset) (cached_place version checksums_txt)
          asset d =
        (digest, lists, has) in
      (ground (arith, h1), rw (still ∙ last) at verified)

  fetched :
      (n : ℕ) (digest : Text) (d : Disk)
      → Lists w (cached_place version checksums_txt) asset digest d
      → Lists w
          (cached_place version checksums_txt)
          asset
          digest
          (ensure_file w cache n version asset d).1
  fetched n digest d =
      Lists-of_same w (cached_place version checksums_txt) asset digest d
        (ensure_file w cache n version asset d).1
        (ensure_file-other w cache n version asset d (cached_place version checksums_txt)
          (same_place-cached_place version asset other))

  fetch_again-Verified :
      (expected : Text) (d : Disk) (found : Place × Bool) (d' : Disk)
      → fetch_again w cache version asset expected d ≡ (inr found, d')
      → Lists w (cached_place version checksums_txt) asset expected d
      → (found.0 ≡ cached_place version asset)
        × Verified w (cached_place version asset) (cached_place version checksums_txt) asset d'
  unfolding fetch_again
  fetch_again-Verified expected d found d' h lists =
      let (u, d1, r, h1) =
        and_then-inr (remove_file w (cached_place version asset) d) _ found d' h in
      let (digest, d2, e, h2) =
        and_then-inr (expected_again w cache version asset expected d1) _ found d' h1 in
      let (hit, d3, f, h3) = and_then-inr (ensure_file w cache 3 version asset d2) _ found d' h2 in
      let removed : (remove_file w (cached_place version asset) d).1 ≡ d1 =
        ap (λ (x : (ReleaseError ⊎ Unit {0}) × Disk). x.1) r in
      let kept : Lists w (cached_place version checksums_txt) asset expected
          (remove_file w (cached_place version asset) d).1 =
        Lists-of_same w (cached_place version checksums_txt) asset expected d
          (remove_file w (cached_place version asset) d).1
          (remove_file-other w (cached_place version asset) (cached_place version checksums_txt) d
            (same_place-cached_place version asset other))
          lists in
      let again : Lists w (cached_place version checksums_txt) asset digest d2 =
        expected_again-Lists w cache version asset expected d1 digest d2 e (rw removed at kept) in
      let ensured : (ensure_file w cache 3 version asset d2).1 ≡ d3 =
        ap (λ (x : (ReleaseError ⊎ Bool) × Disk). x.1) f in
      let ready : Lists w (cached_place version checksums_txt) asset digest d3 =
        rw ensured at (fetched 3 digest d2 again) in
      elim (handled-inr (remove_and_fail w (cached_place version asset)) _ found d' h3) [
        | inl v ↦ verified_path-Verified digest false d3 found d' v ready
        | inr (x, d4, _, bad) ↦
            absurd (remove_and_fail-inr w (cached_place version asset) x d4 found d' bad)
      ]

  verified_path-still :
      (digest : Text) (hit : Bool) (d : Disk)
      → (verified_path w (cached_place version asset) digest hit d).1 ≡ d
  unfolding verified_path verify_release_asset read_file
  verified_path-still digest hit d = ground arith

  failed_verify :
      (digest : Text) (hit : Bool) (d : Disk) (e : ReleaseError) (d' : Disk)
      → verified_path w (cached_place version asset) digest hit d ≡ (inl e, d')
      → d ≡ d'
  failed_verify digest hit d e d' h =
      sym (verified_path-still digest hit d)
      ∙ ap (λ (x : (ReleaseError ⊎ (Place × Bool)) × Disk). x.1) h

  pub listed_asset-Verified :
      (checksums_hit : Bool) (sums : List ℕ) (d : Disk) (found : Place × Bool) (d' : Disk)
      → listed_asset w cache version asset checksums_hit sums d ≡ (inr found, d')
      → Reads (cached_place version checksums_txt) sums d
      → (found.0 ≡ cached_place version asset)
        × Verified w (cached_place version asset) (cached_place version checksums_txt) asset d'
  unfolding listed_asset
  listed_asset-Verified checksums_hit sums d found d' h reads =
      let (expected, d1, c, h1) =
        and_then-inr
          (or_else (lift (checksum_for_asset (w.text_of sums) asset))
            (remove_and_fail w (cached_place version checksums_txt)) d)
          _ found d' h in
      let (hit, d2, f, h2) = and_then-inr (ensure_file w cache 1 version asset d1) _ found d' h1 in
      elim (handled-inr (remove_and_fail w (cached_place version checksums_txt))
        (checksum_for_asset (w.text_of sums) asset, d) expected d1 c) [
          | inl k ↦
              let still : d ≡ d1 = ap (λ (x : (ReleaseError ⊎ Text) × Disk). x.1) k in
              let lists : Lists w (cached_place version checksums_txt) asset expected d =
                (sums, reads, ap (λ (x : (ReleaseError ⊎ Text) × Disk). x.0) k) in
              let ensured : (ensure_file w cache 1 version asset d1).1 ≡ d2 =
                ap (λ (x : (ReleaseError ⊎ Bool) × Disk). x.1) f in
              let ready : Lists w (cached_place version checksums_txt) asset expected d2 =
                rw ensured at (fetched 1 expected d1 (rw still at lists)) in
              (elim (handled-inr (λ e. fetch_again w cache version asset expected) _ found d' h2) [
                | inl v ↦ verified_path-Verified expected (checksums_hit && hit) d2 found d' v ready
                | inr (e, d3, v, again) ↦
                    fetch_again-Verified expected d3 found d' again
                      (rw (failed_verify expected (checksums_hit && hit) d2 e d3 v) at ready)
              ])
          | inr (e, d3, _, bad) ↦
              absurd
                (remove_and_fail-inr w (cached_place version checksums_txt) e d3 expected d1 bad)
        ]
