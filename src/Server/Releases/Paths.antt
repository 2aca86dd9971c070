-- ===== src/Server/Releases/Paths.antt =====
-- assetPath of internal/server/release_cache.go: the file at a path that it returns.
use server_status.Base.{
  ℕ, Bool, true, false, List, ◌⊎◌, inl, inr, ◌≡◌, sym, ap, ◌∙◌, arith, Bool-cases,
}
use server_status.Base.Text.{Text, text_eq, text_eq_iff}
use server_status.Server.Releases.{
  ReleaseError, checksums_txt, parse_release_checksums, checksum_for_asset,
}
use server_status.Server.Releases.Files.{
  Place, Disk, World, ReleaseCache, return, ensure_file, read_file, verify_release_asset, or_else,
  lift, remove_and_fail, cached_place, bundled_place,
}
use server_status.Server.Releases.Cache.{
  valid_checksums, cached_asset_path, inspect_bundled, verified_bundled, bundled_listed,
  has_bundled, asset_path,
}
use server_status.Server.Releases.Steps.{
  and_then-inr, handled-inr, remove_and_fail-inr, read_file-inr, verify_release_asset-inr, Reads,
}
use server_status.Server.Releases.Verified.{Lists, Verified, listed_asset-Verified}

-- What a directory has at a path that is served: the asset with the digest that its checksums list, or
-- checksums that are valid.
abbrev pub Vouched : World → Bool → Text → Text → List ℕ → Disk → Type 0
Vouched w is_bundled version asset content d =
    ((asset ≡ checksums_txt)
      × ((parsed : List (Text × Text)) × (parse_release_checksums (w.text_of content)
            ≡ inr parsed)))
    ⊎ Lists w (record { is_bundled = is_bundled; version = version; asset = checksums_txt }) asset
        (w.sha256_hex content) d

pub record IsServed (w : World) (version asset : Text) (p : Place) (content : List ℕ) (d : Disk)
    : Type 0 where
  pub is_bundled : Bool
  pub place : p ≡ record { is_bundled = is_bundled; version = version; asset = asset }
  pub reads : Reads p content d
  pub vouched : Vouched w is_bundled version asset content d

module _ (w : World) (cache : ReleaseCache) (version asset : Text) where
  Verified-IsServed :
      (is_bundled : Bool) (p : Place) (d : Disk)
      → p ≡ record { is_bundled = is_bundled; version = version; asset = asset }
      → Verified w
          (record { is_bundled = is_bundled; version = version; asset = asset })
          (record { is_bundled = is_bundled; version = version; asset = checksums_txt })
          asset
          d
      → (content : List ℕ) × IsServed w version asset p content d
  Verified-IsServed is_bundled p d same (digest, lists, (content, reads, is)) = (
    content,
    record {
      is_bundled = is_bundled;
      place = same;
      reads = rw same reads;
      vouched = inr (rw is lists);
    },
  )

  valid_checksums-IsServed :
      (hit : Bool) (sums : List ℕ) (d : Disk) (found : Place × Bool) (d' : Disk)
      → asset ≡ checksums_txt
      → valid_checksums w version hit sums d ≡ (inr found, d')
      → Reads (cached_place version checksums_txt) sums d
      → (content : List ℕ) × IsServed w version asset found.0 content d'
  unfolding valid_checksums
  valid_checksums-IsServed hit sums d found d' is h reads =
      let (parsed, d1, c, h1) =
        and_then-inr
          (or_else (lift (parse_release_checksums (w.text_of sums)))
            (remove_and_fail w (cached_place version checksums_txt)) d)
          _ found d' h in
      elim (handled-inr (remove_and_fail w (cached_place version checksums_txt))
        (parse_release_checksums (w.text_of sums), d) parsed d1 c) [
          | inl k ↦
              let still : d ≡ d' =
                ap (λ (x : (ReleaseError ⊎ List (Text × Text)) × Disk). x.1) k
                ∙ ap (λ (x : (ReleaseError ⊎ (Place × Bool)) × Disk). x.1) h1 in
              let place : found.0 ≡ cached_place version asset = ground (arith, h1, is) in
              (
                sums,
                record {
                  is_bundled = false;
                  place = place;
                  reads = rw (place, is, sym still) reads;
                  vouched = inl (
                    is,
                    (parsed, ap (λ (x : (ReleaseError ⊎ List (Text × Text)) × Disk). x.0) k),
                  );
                },
              )
          | inr (e, d2, _, bad) ↦
              absurd (remove_and_fail-inr w (cached_place version checksums_txt) e d2 parsed d1 bad)
        ]

  cached_asset_path-IsServed :
      (d : Disk) (found : Place × Bool) (d' : Disk)
      → cached_asset_path w cache version asset d ≡ (inr found, d')
      → (content : List ℕ) × IsServed w version asset found.0 content d'
  unfolding cached_asset_path
  cached_asset_path-IsServed d found d' h =
      let (hit, d1, f, h1) =
        and_then-inr (ensure_file w cache 0 version checksums_txt d) _ found d' h in
      let (sums, d2, r, h2) =
        and_then-inr (read_file (cached_place version checksums_txt) d1) _ found d' h1 in
      let (f1, at, same, still) = read_file-inr (cached_place version checksums_txt) d1 sums d2 r in
      let old : Reads (cached_place version checksums_txt) sums d1 = (f1, at, same) in
      let reads : Reads (cached_place version checksums_txt) sums d2 = rw still at old in
      elim (Bool-cases (text_eq asset checksums_txt)) [
        | inl t ↦
            valid_checksums-IsServed hit sums d2 found d' ((text_eq_iff asset checksums_txt).0 t)
              (rw t at h2) reads
        | inr t ↦
            let (place, verified) =
              listed_asset-Verified w cache version asset t hit sums d2 found d' (rw t at h2)
                reads in
            Verified-IsServed false found.0 d' place verified
      ]

  bundled_checksums-IsServed :
      (sums : List ℕ) (parsed : List (Text × Text)) (d : Disk) (found : Place × Bool) (d' : Disk)
      → asset ≡ checksums_txt
      → return (bundled_place version checksums_txt, true) d ≡ (inr found, d')
      → Reads (bundled_place version checksums_txt) sums d
      → parse_release_checksums (w.text_of sums) ≡ inr parsed
      → (content : List ℕ) × IsServed w version asset found.0 content d'
  bundled_checksums-IsServed sums parsed d found d' is h reads ok =
      let still : d ≡ d' = ap (λ (x : (ReleaseError ⊎ (Place × Bool)) × Disk). x.1) h in
      let place : found.0 ≡ bundled_place version asset = ground (arith, h, is) in
      (
        sums,
        record {
          is_bundled = true;
          place = place;
          reads = rw (place, is, sym still) reads;
          vouched = inl (is, (parsed, ok));
        },
      )

  inspect_bundled-still : (p : Place) (d : Disk) → (inspect_bundled p d).1 ≡ d
  unfolding inspect_bundled
  inspect_bundled-still p d = ground arith

  bundled_asset-IsServed :
      (sums : List ℕ) (d : Disk) (found : Place × Bool) (d' : Disk)
      → verified_bundled w version asset sums d ≡ (inr found, d')
      → Reads (bundled_place version checksums_txt) sums d
      → (content : List ℕ) × IsServed w version asset found.0 content d'
  unfolding verified_bundled
  bundled_asset-IsServed sums d found d' h reads =
      let (expected, d1, c, h1) =
        and_then-inr (checksum_for_asset (w.text_of sums) asset, d) _ found d' h in
      let (u, d2, i, h2) =
        and_then-inr (inspect_bundled (bundled_place version asset) d1) _ found d' h1 in
      let (v, d3, e, h3) =
        and_then-inr (verify_release_asset w (bundled_place version asset) expected d2) _ found d'
          h2 in
      let (has, last) =
        verify_release_asset-inr w (bundled_place version asset) expected d2 v d3 e in
      let lists : Lists w (bundled_place version checksums_txt) asset expected d =
        (sums, reads, ap (λ (x : (ReleaseError ⊎ Text) × Disk). x.0) c) in
      let to_second : d ≡ d2 =
        ap (λ (x : (ReleaseError ⊎ Text) × Disk). x.1) c
        ∙ sym (inspect_bundled-still (bundled_place version asset) d1)
        ∙ ap (λ (x : (ReleaseError ⊎ Unit {0}) × Disk). x.1) i in
      let to_end : d2 ≡ d' = last ∙ ap (λ (x : (ReleaseError ⊎ (Place × Bool)) × Disk). x.1) h3 in
      let verified : Verified w (bundled_place version asset) (bundled_place version checksums_txt)
          asset d2 =
        (expected, rw to_second at lists, has) in
      Verified-IsServed true found.0 d' (ground (arith, h3)) (rw to_end at verified)

  bundled_listed-IsServed :
      (d : Disk) (found : Place × Bool) (d' : Disk)
      → bundled_listed w version asset d ≡ (inr found, d')
      → (content : List ℕ) × IsServed w version asset found.0 content d'
  unfolding bundled_listed
  bundled_listed-IsServed d found d' h =
      let (u, d1, i, h1) =
        and_then-inr (inspect_bundled (bundled_place version checksums_txt) d) _ found d' h in
      let (sums, d2, r, h2) =
        and_then-inr (read_file (bundled_place version checksums_txt) d1) _ found d' h1 in
      let (parsed, d3, p, h3) =
        and_then-inr (parse_release_checksums (w.text_of sums), d2) _ found d' h2 in
      let (f1, at, same, still) =
        read_file-inr (bundled_place version checksums_txt) d1 sums d2 r in
      let next : d2 ≡ d3 = ap (λ (x : (ReleaseError ⊎ List (Text × Text)) × Disk). x.1) p in
      let old : Reads (bundled_place version checksums_txt) sums d1 = (f1, at, same) in
      let reads : Reads (bundled_place version checksums_txt) sums d3 = rw (still ∙ next) at old in
      elim (Bool-cases (text_eq asset checksums_txt)) [
        | inl t ↦
            let is = (text_eq_iff asset checksums_txt).0 t in
            bundled_checksums-IsServed sums parsed d3 found d' is (rw t at h3) reads
              (ap (λ (x : (ReleaseError ⊎ List (Text × Text)) × Disk). x.0) p)
        | inr t ↦ bundled_asset-IsServed sums d3 found d' (rw t at h3) reads
      ]

  pub asset_path-IsServed :
      (d : Disk) (found : Place × Bool) (d' : Disk)
      → asset_path w cache version asset d ≡ (inr found, d')
      → (content : List ℕ) × IsServed w version asset found.0 content d'
  unfolding asset_path
  asset_path-IsServed d found d' h = elim (Bool-cases (has_bundled cache version d)) [
    | inl b ↦ bundled_listed-IsServed d found d' (rw b at h)
    | inr b ↦ cached_asset_path-IsServed d found d' (rw b at h)
  ]
