-- ===== src/Agent/Health/Scan.antt =====
-- parseSMARTScan of health.go: the drives that smartctl finds.
use mathlib.Core.List.{Nodup, Nodup-nil, Nodup-cons}
use server_status.Base.{
  ℕ, suc, ◌+◌, ◌≤◌, List, [], ◌∷◌, ◌++◌, map, Bool, true, false, not, ◌||◌, Option, none, some, ◌≡◌,
  refl, inl, inr, arith, ltb, leb, length, Bool-cases, All, All-map,
}
use server_status.Base.Distinct.{AreNew, AreNew-cons}
use server_status.Base.Text.{
  Text, codes, trim_space, has_prefix, byte_len, contains, contains-false_iff,
}
use server_status.Agent.Health.Types.{SmartDevice}

abbrev pub limit : ℕ
limit = 4096

-- The texts of a device, trimmed.
unfoldable pub trim_device : SmartDevice → SmartDevice
trim_device device = record device {
  name = trim_space device.name;
  type = trim_space device.type;
  protocol = trim_space device.protocol;
}

unfoldable pub is_unusable : SmartDevice → Bool
is_unusable device =
    not (has_prefix device.name (codes "/dev/"))
    || ltb 4096 (byte_len device.name)
    || ltb 256 (byte_len device.type)

abbrev pub scan_key : SmartDevice → Text
scan_key device = device.name ++ (0 ∷ device.type)

-- The loop, from the keys seen and the number of results so far.
unfoldable pub scan_from : List Text → ℕ → List SmartDevice → List SmartDevice
scan_from seen count [] = []
scan_from seen count (scanned ∷ devices) =
    let device = trim_device scanned in
    elim (is_unusable device || contains seen (scan_key device)) [
      | true ↦ scan_from seen count devices
      | false ↦ device ∷ elim (leb limit (suc count)) [
        | true ↦ []
        | false ↦ scan_from (scan_key device ∷ seen) (suc count) devices
      ]
    ]

-- `none` where json.Unmarshal fails.
unfoldable pub parse_smart_scan : Option (List SmartDevice) → List SmartDevice
parse_smart_scan none = []
parse_smart_scan (some devices) = scan_from [] 0 devices

-- What the loop returns from `seen` and `count`.
record IsScan (seen : List Text) (count : ℕ) (devices : List SmartDevice) : Type 0 where
  usable : All (λ d. is_unusable d ≡ false) devices
  new : AreNew scan_key seen devices
  distinct : Nodup (map scan_key devices)
  few : count + length devices ≤ limit

nothing : (seen : List Text) (count : ℕ) → count ≤ limit → IsScan seen count []
nothing seen count h = record {
  usable = tt;
  new = tt;
  distinct = Nodup-nil;
  few = omega (arith, h);
}

-- A device joins a scan that knows it.
join :
    (seen : List Text) (count : ℕ) (device : SmartDevice) (devices : List SmartDevice)
    → (is_unusable device || contains seen (scan_key device)) ≡ false
    → IsScan (scan_key device ∷ seen) (suc count) devices
    → IsScan seen count (device ∷ devices)
join seen count device devices h rest =
    let (new, absent) = AreNew-cons scan_key (scan_key device) seen devices rest.new in
    let few = rest.few in
    record {
      usable = (ground (arith, h), rest.usable);
      new = (ground (arith, h, contains-false_iff seen (scan_key device)), new);
      distinct = Nodup-cons.1 (absent, rest.distinct);
      few = omega (arith, few);
    }

scan_from-IsScan :
    (seen : List Text) (count : ℕ) (devices : List SmartDevice)
    → suc count ≤ limit
    → IsScan seen count (scan_from seen count devices)
unfolding scan_from
scan_from-IsScan seen count [] h = nothing seen count (omega (arith, h))
scan_from-IsScan seen count (scanned ∷ devices) h =
    let device = trim_device scanned in
    let ih = scan_from-IsScan seen count devices h in
    elim (Bool-cases (is_unusable device || contains seen (scan_key device))) [
      | inl t ↦ rw (scan_from, t) ih
      | inr t ↦ elim (Bool-cases (leb limit (suc count))) [
        | inl f ↦
            rw (scan_from, t, f)
              (join seen count device [] t (nothing (scan_key device ∷ seen) (suc count) h))
        | inr f ↦
            let more =
              scan_from-IsScan (scan_key device ∷ seen) (suc count) devices
                (ground (arith, h, f)) in
            rw (scan_from, t, f) (join seen count device _ t more)
      ]
    ]

has_prefix-rest : (s p : Text) → has_prefix s p ≡ true → (rest : Text) × (s ≡ p ++ rest)
unfolding has_prefix
has_prefix-rest s [] h = (s, refl)
has_prefix-rest [] (c ∷ p) h = absurd (ground (arith, h))
has_prefix-rest (b ∷ s) (c ∷ p) h =
    let (rest, e) = has_prefix-rest s p (ground (arith, h)) in
    let same : b ≡ c = ground (arith, h) in (rest, rw (same, e) refl)

-- A device whose name is `/dev/` and a rest, in 4096 bytes at most, with a type of 256 bytes at most.
pub record IsUsable (device : SmartDevice) : Type 0 where
  pub under_dev : (rest : Text) × (device.name ≡ codes "/dev/" ++ rest)
  pub short_name : byte_len device.name ≤ 4096
  pub short_type : byte_len device.type ≤ 256

is_unusable-IsUsable : (device : SmartDevice) → is_unusable device ≡ false → IsUsable device
unfolding is_unusable
is_unusable-IsUsable device h = record {
  under_dev = has_prefix-rest device.name (codes "/dev/") (ground (arith, h));
  short_name = ground (arith, h);
  short_type = ground (arith, h);
}

-- The devices of a scan: each is usable, no name and type occur twice, and they are 4096 at most.
pub record IsUsableScan (devices : List SmartDevice) : Type 0 where
  pub usable : All IsUsable devices
  pub distinct : Nodup (map scan_key devices)
  pub few : length devices ≤ limit

-- A scan has at most 4096 devices. The name of each begins with `/dev/` and has at most 4096 bytes, its
-- type has at most 256 bytes, and no two have the same name and type.
pub parse_smart_scan-IsUsableScan :
    (decoded : Option (List SmartDevice)) → IsUsableScan (parse_smart_scan decoded)
unfolding parse_smart_scan
parse_smart_scan-IsUsableScan none = record { usable = tt; distinct = Nodup-nil; few = omega arith }
parse_smart_scan-IsUsableScan (some devices) =
    let s = scan_from-IsScan [] 0 devices (omega arith) in
    let few = s.few in
    record {
      usable = All-map _ _ is_unusable-IsUsable (scan_from [] 0 devices) s.usable;
      distinct = s.distinct;
      few = omega (arith, few);
    }
