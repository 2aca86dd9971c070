-- ===== src/Server/Releases/Steps.antt =====
-- The steps of internal/server/release_cache.go: what those that succeed have done, and which files they
-- leave alone.
use server_status.Base.{ℕ, false, List, ◌⊎◌, inl, inr, ◌≡◌, refl, ap, ◌∙◌, arith, Bool-cases}
use server_status.Base.Text.{Text, text_eq, text_eq_iff, text_eq_refl}
use server_status.Server.Releases.{ReleaseError, checksums_txt}
use server_status.Server.Releases.Files.{
  Place, File, Entry, missing, unknown, file, Disk, World, ReleaseCache, M, and_then, ensure_file,
  read_file, remove_file, verify_release_asset, handled, remove_and_fail, cached_place, same_place,
  write, download_file,
}

-- A step that succeeds has parts that succeed.
module _ {A B : Type 0} where
  pub and_then-inr :
      (r : (ReleaseError ⊎ A) × Disk) (f : A → M B) (b : B) (d' : Disk)
      → and_then r f ≡ (inr b, d')
      → (a : A) × (d : Disk) × (r ≡ (inr a, d)) × (f a d ≡ (inr b, d'))
  and_then-inr (inl e, d) f b d' h = absurd (ground (arith, h))
  and_then-inr (inr a, d) f b d' h = (a, d, refl, h)

module _ {A : Type 0} where
  pub handled-inr :
      (handle : ReleaseError → M A) (r : (ReleaseError ⊎ A) × Disk) (b : A) (d' : Disk)
      → handled handle r ≡ (inr b, d')
      → (r ≡ (inr b, d'))
        ⊎ ((e : ReleaseError) × (d : Disk) × (r ≡ (inl e, d)) × (handle e d ≡ (inr b, d')))
  handled-inr handle (inl e, d) b d' h = inr (e, d, refl, h)
  handled-inr handle (inr a, d) b d' h = inl h

  pub remove_and_fail-inr :
      (w : World) (p : Place) (e : ReleaseError) (d : Disk) (b : A) (d' : Disk)
      → remove_and_fail w p e d ≡ (inr b, d')
      → ⊥
  unfolding remove_file
  remove_and_fail-inr w p e d b d' h = ground (arith, h)

-- What a file that is read has, and that reading changes nothing.
pub read_file-inr :
    (p : Place) (d : Disk) (content : List ℕ) (d' : Disk)
    → read_file p d ≡ (inr content, d')
    → (f : File) × (d p ≡ file f) × (f.content ≡ content) × (d ≡ d')
unfolding read_file
read_file-inr p d content d' h = go (d p) refl
  where
    go : (e : Entry) → d p ≡ e → (f : File) × (d p ≡ file f) × (f.content ≡ content) × (d ≡ d')
    go missing q = absurd (ground (arith, rw (q, read_file) at h))
    go unknown q = absurd (ground (arith, rw (q, read_file) at h))
    go (file f) q = elim (Bool-cases f.is_readable) [
      | inl r ↦
          let k = rw (q, read_file, r) at h in
          (f, q, ground (arith, k), ap (λ (x : (ReleaseError ⊎ List ℕ) × Disk). x.1) k)
      | inr r ↦ absurd (ground (arith, rw (q, read_file, r) at h))
    ]

abbrev pub Reads : Place → List ℕ → Disk → Type 0
Reads p content d = (f : File) × (d p ≡ file f) × (f.content ≡ content)

abbrev pub HasDigest : World → Place → Text → Disk → Type 0
HasDigest w p expected d =
    (content : List ℕ) × Reads p content d × (w.sha256_hex content ≡ expected)

pub verify_release_asset-inr :
    (w : World) (p : Place) (expected : Text) (d : Disk) (u : Unit {0}) (d' : Disk)
    → verify_release_asset w p expected d ≡ (inr u, d')
    → HasDigest w p expected d × (d ≡ d')
unfolding verify_release_asset
verify_release_asset-inr w p expected d u d' h =
    let (content, d1, r, k) = and_then-inr (read_file p d) _ u d' h in
    let (f, at, same, still) = read_file-inr p d content d1 r in
    elim (Bool-cases (text_eq (w.sha256_hex content) expected)) [
      | inl t ↦
          let last : d1 ≡ d' = ap (λ (x : (ReleaseError ⊎ Unit {0}) × Disk). x.1) (rw t at k) in
          ((content, (f, at, same), (text_eq_iff _ _).0 t), still ∙ last)
      | inr t ↦ absurd (ground (arith, rw t at k))
    ]

-- A file is fetched without a change to any other.
pub ensure_file-other :
    (w : World) (cache : ReleaseCache) (n : ℕ) (version asset : Text) (d : Disk) (q : Place)
    → same_place (cached_place version asset) q ≡ false
    → (ensure_file w cache n version asset d).1 q ≡ d q
unfolding ensure_file download_file write
ensure_file-other w cache n version asset d q other = ground arith

pub remove_file-other :
    (w : World) (p q : Place) (d : Disk) → same_place p q ≡ false → (remove_file w p d).1 q ≡ d q
unfolding remove_file write
remove_file-other w p q d other = ground arith

pub same_place-cached_place :
    (version asset : Text)
    → text_eq asset checksums_txt ≡ false
    → same_place (cached_place version asset) (cached_place version checksums_txt) ≡ false
unfolding same_place
same_place-cached_place version asset other = rw (text_eq_refl version, other) refl
