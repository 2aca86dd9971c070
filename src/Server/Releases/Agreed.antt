-- ===== src/Server/Releases/Agreed.antt =====
-- The digest that the server of internal/server/release_cache.go reads for an asset, and the one that
-- the agent of internal/agent/updater.go reads.
use server_status.Base.{
  true, false, not, ◌&&◌, List, [], ◌∷◌, Option, none, some, ◌⊎◌, inl, inr, ◌≡◌, refl, sym, ap, ◌∙◌,
  arith, Bool-cases, Option-cases, ltb, All,
}
use server_status.Base.Checksums.{fields, is_digest, max_token_size}
use server_status.Base.Decimal.{split}
use mathlib.Core.List.{map, Nodup, Nodup-nil}
use server_status.Base.Dict.{get, key_of, get-put, get-put_other, Nodup-put}
use server_status.Base.Text.{Text, text_eq, text_eq_iff, text_eq_refl, to_lower, byte_len}
use server_status.Agent.Updater.{line_digest, scan_lines, update_checksum_for_asset}
use server_status.Server.Releases.{
  ReleaseError, checksums_txt, valid_release_asset, add_listed, scan_checksums, digest_of,
  require_agents, parse_release_checksums, checksum_for_asset,
}

-- The digests that the lines list for an asset, in their order.
abbrev cons_some : Option Text → List Text → List Text
cons_some none digests = digests
cons_some (some digest) digests = digest ∷ digests

unfoldable pub listed_digests : Text → List Text → List Text
listed_digests asset [] = []
listed_digests asset (line ∷ lines) =
    cons_some (line_digest asset (fields line)) (listed_digests asset lines)

-- One line changes the entry of an asset to the digest that it lists, and leaves the others.
abbrev or_else {ℓ} : {A : Type ℓ} → Option A → Option A → Option A
or_else none o = o
or_else (some a) o = some a

module _ (asset : Text) (valid : valid_release_asset asset ≡ true)
    (other : text_eq asset checksums_txt ≡ false) where
  get-add_listed :
      (words : List Text) (checksums : List (Text × Text))
      → Nodup (map key_of checksums)
      → get asset (add_listed checksums words)
        ≡ or_else (line_digest asset words) (get asset checksums)
  unfolding add_listed line_digest
  get-add_listed [] checksums n = refl
  get-add_listed (digest ∷ []) checksums n = refl
  get-add_listed (digest ∷ name ∷ []) checksums n = elim (Bool-cases (text_eq name asset)) [
    | inl t ↦
        rw ((text_eq_iff name asset).0 t, text_eq_refl asset, valid, other)
          (elim (Bool-cases (is_digest digest)) [
            | inl k ↦ rw k (get-put asset (to_lower digest) checksums)
            | inr k ↦ rw k refl
          ])
    | inr t ↦
        elim (Bool-cases
          (valid_release_asset name && not (text_eq name checksums_txt) && is_digest digest)) [
            | inl k ↦
                rw (t, k)
                  (get-put_other asset name (to_lower digest) checksums n
                    (λ e. ground (arith, text_eq_iff name asset, t, e)))
            | inr k ↦ rw (t, k) refl
          ]
  ]
  get-add_listed (digest ∷ name ∷ more ∷ words) checksums n = refl

  Nodup-add_listed :
      (words : List Text) (checksums : List (Text × Text))
      → Nodup (map key_of checksums)
      → Nodup (map key_of (add_listed checksums words))
  unfolding add_listed
  Nodup-add_listed [] checksums n = n
  Nodup-add_listed (digest ∷ []) checksums n = n
  Nodup-add_listed (digest ∷ name ∷ []) checksums n =
      elim (Bool-cases
        (valid_release_asset name && not (text_eq name checksums_txt) && is_digest digest)) [
          | inl k ↦ rw k (Nodup-put name (to_lower digest) checksums n)
          | inr k ↦ rw k n
        ]
  Nodup-add_listed (digest ∷ name ∷ more ∷ words) checksums n = n

  scan-agreed :
      (digest : Text) (lines : List Text) (checksums found : List (Text × Text))
      → Nodup (map key_of checksums)
      → scan_checksums checksums lines ≡ inr found
      → get asset found ≡ some digest
      → All (λ d. d ≡ digest) (listed_digests asset lines)
      → (scan_lines asset lines ≡ inr digest) ⊎ (get asset checksums ≡ some digest)
  unfolding scan_checksums scan_lines listed_digests
  scan-agreed digest [] checksums found n h g all = inr (ground (arith, h, g))
  scan-agreed digest (line ∷ lines) checksums found n h g all =
      elim (Bool-cases (ltb (byte_len line) max_token_size)) [
        | inl short ↦ elim (Option-cases (line_digest asset (fields line))) [
          | inl l ↦
              elim (scan-agreed digest lines (add_listed checksums (fields line)) found
                (Nodup-add_listed (fields line) checksums n) (rw short at h) g (rw l at all)) [
                  | inl s ↦ inl (rw (short, l) s)
                  | inr s ↦ inr (sym (rw l at (get-add_listed (fields line) checksums n)) ∙ s)
                ]
          | inr (d, l) ↦ inl (rw (short, l) (ap inr (rw l at all).0))
        ]
        | inr long ↦ absurd (ground (arith, rw long at h))
      ]

  parse-agreed :
      (content : Text) (checksums : List (Text × Text)) (digest : Text)
      → parse_release_checksums content ≡ inr checksums
      → get asset checksums ≡ some digest
      → All (λ d. d ≡ digest) (listed_digests asset (split b'\n' content))
      → update_checksum_for_asset content asset ≡ inr digest
  unfolding parse_release_checksums require_agents update_checksum_for_asset
  parse-agreed content checksums digest h g all = go (scan_checksums [] (split b'\n' content)) refl
    where
      go :
          (r : ReleaseError ⊎ List (Text × Text))
          → scan_checksums [] (split b'\n' content) ≡ r
          → update_checksum_for_asset content asset ≡ inr digest
      go (inl e) q = absurd (ground (arith, rw (q, parse_release_checksums) at h))
      go (inr found) q =
          elim (scan-agreed digest (split b'\n' content) [] found Nodup-nil q
            (ground (arith, rw (q, parse_release_checksums) at h, g)) all) [
              | inl s ↦ s
              | inr s ↦ absurd (unfold get in (ground (arith, s)))
            ]

  -- Where the server finds a digest for an asset other than the checksums themselves, and no line of
  -- the checksums lists another digest for it, the agent reads the same digest from the same text.
  pub checksum_for_asset-agreed :
      (content digest : Text)
      → checksum_for_asset content asset ≡ inr digest
      → All (λ d. d ≡ digest) (listed_digests asset (split b'\n' content))
      → update_checksum_for_asset content asset ≡ inr digest
  unfolding checksum_for_asset digest_of
  checksum_for_asset-agreed content digest h all = go (parse_release_checksums content) refl
    where
      go :
          (r : ReleaseError ⊎ List (Text × Text))
          → parse_release_checksums content ≡ r
          → update_checksum_for_asset content asset ≡ inr digest
      go (inl e) q = absurd (ground (arith, rw (q, checksum_for_asset) at h))
      go (inr found) q = elim (Option-cases (get asset found)) [
        | inl g ↦ absurd (ground (arith, rw (q, checksum_for_asset, g) at h))
        | inr (d, g) ↦
            parse-agreed content found digest q
              (g ∙ ap some (ground (arith, rw (q, checksum_for_asset, g) at h))) all
      ]
