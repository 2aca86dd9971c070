-- ===== src/Agent/Health/Merge.antt =====
-- mergeSMARTSamples of health.go: the drives of the samples join the block devices of the inventory.
use server_status.Base.{
  ℕ, zero, suc, ◌++◌, List, [], ◌∷◌, Bool, false, not, ◌&&◌, ◌||◌, Option, none, some,
  if◌then◌else◌, ltb,
}
use server_status.Base.Sort.{sort_by}
use server_status.Base.Text.{
  Text, codes, text_eq, is_empty, trim_space, has_prefix, contains_text, contains, to_lower,
}
use server_status.Report.Inventory.{BlockDevice}
use server_status.Report.Types.{StorageHealth}
use server_status.Agent.Health.Types.{SmartDevice, SmartctlDocument, SmartSample}
use server_status.Agent.Health.Storage.{smart_uint, storage_health_from_smart}

-- The first text that is not blank, trimmed.
unfoldable pub first_non_empty : List Text → Text
first_non_empty [] = []
first_non_empty (value ∷ values) =
    if is_empty (trim_space value) then first_non_empty values else trim_space value

abbrev pub raid_prefixes : List Text
raid_prefixes =
    codes "megaraid,"
    ∷ codes "aacraid,"
    ∷ codes "areca,"
    ∷ codes "3ware,"
    ∷ codes "hpt,"
    ∷ codes "cciss,"
    ∷ codes "sssraid,"
    ∷ []

has_raid_prefix : Text → List Text → Bool
has_raid_prefix device_type [] = false
has_raid_prefix device_type (prefix ∷ prefixes) =
    has_prefix device_type prefix
    || contains_text device_type (b'+' ∷ prefix)
    || has_raid_prefix device_type prefixes

unfoldable pub is_raid_smart_type : Text → Bool
unfolding has_raid_prefix
is_raid_smart_type device_type = has_raid_prefix (to_lower (trim_space device_type)) raid_prefixes

-- The size, 0 without one.
abbrev or_zero : Option ℕ → ℕ
or_zero none = 0
or_zero (some n) = n

abbrev rotates : Option ℕ → Option Bool
rotates none = none
rotates (some rate) = some (ltb 0 rate)

unfoldable pub block_device_from_smart : SmartDevice → SmartctlDocument → BlockDevice
block_device_from_smart scanned doc =
    let device_info = if is_empty doc.device.name then scanned else doc.device in
    let device_type = first_non_empty (device_info.type ∷ scanned.type ∷ []) in
    record {
      key = first_non_empty (
          doc.serial_number
          ∷ doc.logical_unit_id
          ∷ (device_info.name ++ codes "|" ++ device_type)
          ∷ []);
      device_name = first_non_empty (device_info.name ∷ scanned.name ∷ []);
      device_kind = codes "disk";
      vendor = doc.scsi_vendor;
      model_name = first_non_empty (
          doc.model_name
          ∷ doc.scsi_model_name
          ∷ trim_space (doc.scsi_vendor ++ codes " " ++ doc.scsi_product)
          ∷ []);
      serial_number = doc.serial_number;
      wwn = doc.logical_unit_id;
      size_bytes = or_zero (smart_uint doc.user_capacity_bytes);
      rotational = rotates doc.rotation_rate;
      protocol = first_non_empty (device_info.protocol ∷ scanned.protocol ∷ []);
      smart_device_type = device_type;
      raid_passthrough = is_raid_smart_type device_type;
    }

-- `a != "" && a == b`
abbrev same_filled : Text → Text → Bool
same_filled a b = not (is_empty a) && text_eq a b

unfoldable pub is_match : BlockDevice → BlockDevice → Bool
is_match candidate device =
    same_filled candidate.serial_number device.serial_number
    || same_filled candidate.wwn device.wwn
    || (same_filled candidate.device_name device.device_name && not candidate.raid_passthrough)

-- `none` is -1.
unfoldable pub match_block_device : List BlockDevice → BlockDevice → Option ℕ
match_block_device [] candidate = none
match_block_device (device ∷ devices) candidate =
    if is_match candidate device
    then some 0
    else elim (match_block_device devices candidate) [ none ↦ none | some i ↦ some (suc i) ]

-- `source`, or `target` where it is empty.
abbrev prefer : Text → Text → Text
prefer target source = if is_empty source then target else source

abbrev prefer_some : Option Bool → Option Bool → Option Bool
prefer_some target none = target
prefer_some target (some b) = some b

unfoldable pub merge_block_device : BlockDevice → BlockDevice → BlockDevice
merge_block_device target source = record target {
  vendor = prefer target.vendor source.vendor;
  model_name = prefer target.model_name source.model_name;
  serial_number = prefer target.serial_number source.serial_number;
  wwn = prefer target.wwn source.wwn;
  size_bytes = if ltb 0 source.size_bytes then source.size_bytes else target.size_bytes;
  rotational = prefer_some target.rotational source.rotational;
  protocol = source.protocol;
  smart_device_type = source.smart_device_type;
  raid_passthrough = source.raid_passthrough;
}

-- `mergeBlockDevice(&devices[i], source)`
unfoldable pub merge_at : ℕ → BlockDevice → List BlockDevice → List BlockDevice
unfolding merge_block_device
merge_at i source [] = []
merge_at zero source (device ∷ devices) = merge_block_device device source ∷ devices
merge_at (suc i) source (device ∷ devices) = device ∷ merge_at i source devices

-- `devices[i].Key`
unfoldable pub key_at : ℕ → List BlockDevice → Text
key_at i [] = []
key_at zero (device ∷ devices) = device.key
key_at (suc i) (device ∷ devices) = key_at i devices

-- The variables of the loop over the samples.
pub record Merge : Type 0 where
  pub devices : List BlockDevice
  pub health : List StorageHealth
  pub seen_health : List Text

-- The health of a drive that has none yet.
unfoldable pub add_health : Text → SmartctlDocument → Merge → Merge
add_health key doc m = if contains m.seen_health key then m else record m {
  health = m.health ++ (storage_health_from_smart key doc ∷ []);
  seen_health = key ∷ m.seen_health;
}

unfoldable pub merge_found : SmartSample → BlockDevice → Option ℕ → Merge → Merge
unfolding add_health merge_at key_at
merge_found sample device none m =
    add_health device.key sample.doc (record m { devices = m.devices ++ (device ∷ []) })
merge_found sample device (some i) m =
    let devices = merge_at i device m.devices in
    add_health (key_at i devices) sample.doc (record m { devices = devices })

unfoldable pub merge_sample : Merge → SmartSample → Merge
unfolding merge_found
merge_sample m sample =
    if not sample.ok
    then m
    else let device = block_device_from_smart sample.device sample.doc in
      merge_found sample device (match_block_device m.devices device) m

unfoldable pub merge_samples : Merge → List SmartSample → Merge
unfolding merge_sample
merge_samples m [] = m
merge_samples m (sample ∷ samples) = merge_samples (merge_sample m sample) samples

unfoldable pub merge_smart_samples :
    List BlockDevice → List SmartSample → List BlockDevice × List StorageHealth
merge_smart_samples inventory samples =
    let m = merge_samples (record { devices = inventory; health = []; seen_health = [] }) samples in
    (sort_by (λ d. d.key) m.devices, sort_by (λ h. h.block_device_key) m.health)
