-- ===== src/Store/Ingest/Fingerprint.antt =====
-- What an inventory fingerprint tells of the keys of an inventory: internal/report/inventory.go, as
-- Ingest of internal/store/ingest.go relies on it.
use mathlib.Core.List.Perm
use mathlib.Core.List.{Mem}
use server_status.Base.{
  ℕ, List, [], ◌∷◌, map, some, ◌≡◌, ◌≢◌, ◌↔◌, refl, sym, ap, ◌∙◌, inl, inr, arith, Option-cases,
}
use server_status.Base.Sort.{sort_by, sort_by-perm}
use server_status.Base.Text.{Text}
use server_status.Report.Inventory.{Inventory, BlockDevice, Filesystem, NetworkInterface, Gpu}
use server_status.Report.Platform.{Platform}
use server_status.Report.Normalize.{
  normalize_inventory, inventory_fingerprint, sort_options, sort_addresses,
}
use server_status.Store.Network.{interface_key}
use server_status.Store.Tables.{Resources}
use server_status.Store.Ingest.Covers.{Covers}

-- The keys of the resources that metrics name.
pub record HasSameKeys (a b : Inventory) : Type 0 where
  pub filesystems :
      map (λ (i : Filesystem). i.key) a.filesystems ≡ map (λ (i : Filesystem). i.key) b.filesystems
  pub interfaces : map interface_key a.network_interfaces ≡ map interface_key b.network_interfaces
  pub gpus : map (λ (i : Gpu). i.key) a.gpus ≡ map (λ (i : Gpu). i.key) b.gpus
  pub block_devices :
      map (λ (i : BlockDevice). i.key) a.block_devices
      ≡ map (λ (i : BlockDevice). i.key) b.block_devices

-- A digest is not the empty text, two documents do not share one, and a document tells the keys.
pub record IsFaithful (p : Platform) : Type 0 where
  pub filled : (bytes : List ℕ) → p.sha256_hex bytes ≢ []
  pub collision_free : (s t : List ℕ) → p.sha256_hex s ≡ p.sha256_hex t → s ≡ t
  pub injective :
      (a b : Inventory) (bytes : List ℕ)
      → p.marshal a ≡ some bytes
      → p.marshal b ≡ some bytes
      → HasSameKeys a b

map-sort_by {ℓ} :
    {A : Type ℓ} (key : A → Text) (k : Text) (xs : List A)
    → Mem k (map key (sort_by key xs)) ↔ Mem k (map key xs)
map-sort_by key k xs = Perm.mem_iff (Perm.map key (sort_by-perm key xs))

same_keys {ℓ} :
    {A : Type ℓ} (key : A → Text) (k : Text) (xs ys : List A)
    → map key (sort_by key xs) ≡ map key (sort_by key ys)
    → Mem k (map key xs)
    → Mem k (map key ys)
same_keys key k xs ys e m = (map-sort_by key k ys).0 (rw e at (map-sort_by key k xs).1 m)

map-sort_options :
    (xs : List Filesystem)
    → map (λ (i : Filesystem). i.key) (map sort_options xs) ≡ map (λ (i : Filesystem). i.key) xs
unfolding sort_options
map-sort_options [] = refl
map-sort_options (x ∷ xs) = ap (λ keys. x.key ∷ keys) (map-sort_options xs)

map-sort_addresses :
    (xs : List NetworkInterface) → map interface_key (map sort_addresses xs) ≡ map interface_key xs
unfolding sort_addresses
map-sort_addresses [] = refl
map-sort_addresses (x ∷ xs) = ap (λ keys. x.key ∷ keys) (map-sort_addresses xs)

module _ (p : Platform) (f : IsFaithful p) where
  -- The document behind a fingerprint.
  document :
      (a : Inventory) (print : Text)
      → inventory_fingerprint p a ≡ some print
      → (bytes : List ℕ) × (p.marshal (normalize_inventory a) ≡ some bytes)
        × (p.sha256_hex bytes ≡ print)
  unfolding inventory_fingerprint
  document a print e = elim (Option-cases (p.marshal (normalize_inventory a))) [
    | inl h ↦ absurd (ground (arith, rw h at e))
    | inr (bytes, h) ↦ (bytes, h, ground (arith, rw h at e))
  ]

  pub fingerprint-filled :
      (a : Inventory) (print : Text) → inventory_fingerprint p a ≡ some print → print ≢ []
  fingerprint-filled a print e q = let (bytes, _, s) = document a print e in f.filled bytes (s ∙ q)

  -- Two inventories with one fingerprint have the same keys, so what covers the one covers the other.
  pub Covers-of_fingerprint :
      (a b : Inventory) (print node : Text) (r : Resources)
      → inventory_fingerprint p a ≡ some print
      → inventory_fingerprint p b ≡ some print
      → Covers node b r
      → Covers node a r
  unfolding normalize_inventory
  Covers-of_fingerprint a b print node r ea eb c =
      let (s, ma, sa) = document a print ea in
      let (t, mb, sb) = document b print eb in
      let same =
        f.injective (normalize_inventory a) (normalize_inventory b) s ma
          (mb ∙ ap some (f.collision_free t s (sb ∙ sym sa))) in
      record {
        filesystems = λ k m. c.filesystems k (
            same_keys (λ (i : Filesystem). i.key) k a.filesystems b.filesystems
              (sym (map-sort_options (sort_by (λ i. i.key) a.filesystems))
                ∙ same.filesystems
                ∙ map-sort_options (sort_by (λ i. i.key) b.filesystems))
              m);
        interfaces = λ k m. c.interfaces k (
            same_keys interface_key k a.network_interfaces b.network_interfaces
              (sym (map-sort_addresses (sort_by interface_key a.network_interfaces))
                ∙ same.interfaces
                ∙ map-sort_addresses (sort_by interface_key b.network_interfaces))
              m);
        gpus = λ k m. c.gpus k (same_keys (λ (i : Gpu). i.key) k a.gpus b.gpus same.gpus m);
        block_devices = λ k m. c.block_devices k (
            same_keys (λ (i : BlockDevice). i.key) k a.block_devices b.block_devices
              same.block_devices m);
      }
