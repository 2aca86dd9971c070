-- ===== src/Report/Measurements/Valid.antt =====
-- What an accepted metric is, and that its checks decide it.
use mathlib.Core.List.{Mem, Nodup}
use mathlib.Core.List
use server_status.Base.{
  ℕ, ◌≤◌, true, false, not, List, [], ◌∷◌, Option, none, some, All, ◌≡◌, ◌≢◌, ◌↔◌, ◌⊎◌, arith,
  length, refl,
}
use server_status.Base.Check.{◌>>◌, reject}
use server_status.Base.Distinct.{for_distinct_iff}
use server_status.Base.Text.{Text, contains, contains_iff, is_empty-false_iff, trim_space}
use server_status.Base.Float.{
  Float, nan, minus_inf, plus_inf, finite, of_nat, absolute_zero, is_nan, is_inf, ◌<F◌, ◌≤F◌,
}
use server_status.Report.Inventory.{Gpu}
use server_status.Report.Types.{
  MemoryMetrics, DiskMetrics, FilesystemMetrics, NetworkMetrics, GpuMetrics, TemperatureMetrics,
  StorageHealth,
}
use server_status.Report.Error.{invalid_risk_reason, duplicate_risk_reason}
use server_status.Report.Bigint.{
  Fits, FitsOption, validate_unsigned_bigints_iff, validate_optional_unsigned_bigints_iff,
}
use server_status.Report.Measurements.Rules.{
  valid_temperature, bad_temperature, check_memory, check_disk, check_filesystem_metric,
  check_network_metric, gpu_memory, check_gpu_usage, check_gpu_metric, components,
  check_temperature, smart_statuses, risk_levels, risk_reasons, check_reasons, bad_percentage,
  check_health_state, check_health_counters, check_storage_health,
}

-- At least absolute zero and at most 1000 degrees, which leaves out NaN and the infinities.
abbrev pub IsTemperature : Float → Type 0
IsTemperature value = ((absolute_zero ≤F value) ≡ true) × ((value ≤F of_nat 1000) ≡ true)

abbrev pub IsTemperatureOption : Option Float → Type 0
IsTemperatureOption none = Unit
IsTemperatureOption (some value) = IsTemperature value

-- Neither below nor above. NaN is in every range, as it is in the source.
abbrev pub IsWithin : ℕ → ℕ → Float → Type 0
IsWithin low high value = ((value <F of_nat low) ≡ false) × ((of_nat high <F value) ≡ false)

abbrev pub IsWithinOption : ℕ → ℕ → Option Float → Type 0
IsWithinOption low high none = Unit
IsWithinOption low high (some value) = IsWithin low high value

pub record IsValidMemory (m : MemoryMetrics) : Type 0 where
  pub total : Fits m.total_bytes
  pub swap_total : Fits m.swap_total_bytes
  pub uptime : Fits m.uptime_seconds
  pub used : m.used_bytes ≤ m.total_bytes
  pub available : m.available_bytes ≤ m.total_bytes
  pub cached : m.cached_bytes ≤ m.total_bytes
  pub buffers : m.buffers_bytes ≤ m.total_bytes
  pub swap_used : m.swap_used_bytes ≤ m.swap_total_bytes

pub record IsValidDisk (d : DiskMetrics) : Type 0 where
  pub read_total : Fits d.read_bytes_total
  pub write_total : Fits d.write_bytes_total
  pub read_delta : Fits d.read_bytes_delta
  pub write_delta : Fits d.write_bytes_delta
  pub read_ops : Fits d.read_ops_delta
  pub write_ops : Fits d.write_ops_delta

pub record IsValidFilesystemMetric (known : List Text) (item : FilesystemMetrics) : Type 0 where
  pub known_key : Mem item.filesystem_key known
  pub total : Fits item.total_bytes
  pub used : item.used_bytes ≤ item.total_bytes
  pub available : item.available_bytes ≤ item.total_bytes
  pub total_inodes : Fits item.total_inodes
  pub used_inodes : Fits item.used_inodes
  pub inodes : (item.total_inodes ≡ 0) ⊎ (item.used_inodes ≤ item.total_inodes)

pub record IsValidNetworkMetric (known : List Text) (item : NetworkMetrics) : Type 0 where
  pub known_key : Mem item.interface_key known
  pub totals : Fits item.rx_bytes_total × Fits item.tx_bytes_total
  pub bytes : Fits item.rx_bytes_delta × Fits item.tx_bytes_delta
  pub packets : Fits item.rx_packets_delta × Fits item.tx_packets_delta
  pub errors : Fits item.rx_errors_delta × Fits item.tx_errors_delta
  pub dropped : Fits item.rx_dropped_delta × Fits item.tx_dropped_delta

-- The memory in use is below the total of the GPU that the metric names.
abbrev pub UsesMemory : Option ℕ → ℕ → Type 0
UsesMemory none used = ⊥
UsesMemory (some total) used = used ≤ total

pub record IsValidGpuMetric (gpus : List Gpu) (item : GpuMetrics) : Type 0 where
  pub memory : UsesMemory (gpu_memory gpus item.gpu_key) item.memory_used_bytes
  pub fits : Fits item.memory_used_bytes
  pub utilization : IsWithin 0 100 item.utilization_percent
  pub temperature : IsTemperatureOption item.temperature_celsius

pub record IsValidTemperature (item : TemperatureMetrics) : Type 0 where
  pub component : Mem item.component components
  pub labelled : trim_space item.label ≢ []
  pub current : IsTemperature item.temperature_celsius
  pub high : IsTemperatureOption item.high_celsius
  pub critical : IsTemperatureOption item.critical_celsius

valid_temperature_iff : (value : Float) → (valid_temperature value ≡ true) ↔ IsTemperature value
unfolding valid_temperature is_nan is_inf absolute_zero of_nat ◌≤F◌
valid_temperature_iff nan = ground arith
valid_temperature_iff minus_inf = ground arith
valid_temperature_iff plus_inf = ground arith
valid_temperature_iff (finite v) = ground arith

bad_temperature_iff :
    (value : Option Float) → (bad_temperature value ≡ false) ↔ IsTemperatureOption value
unfolding bad_temperature
bad_temperature_iff none = (λ h. tt, λ h. refl)
bad_temperature_iff (some value) = ground (arith, valid_temperature_iff value)

bad_percentage_iff :
    (value : Option Float) → (bad_percentage value ≡ false) ↔ IsWithinOption 0 255 value
unfolding bad_percentage
bad_percentage_iff none = (λ h. tt, λ h. refl)
bad_percentage_iff (some value) = ground arith

pub check_memory_iff : (m : MemoryMetrics) → (check_memory m ≡ none) ↔ IsValidMemory m
unfolding check_memory
check_memory_iff m = ground (
  arith,
  validate_unsigned_bigints_iff (
      m.total_bytes ∷ m.used_bytes ∷ m.available_bytes ∷ m.cached_bytes ∷ m.buffers_bytes
      ∷ m.swap_total_bytes ∷ m.swap_used_bytes ∷ m.uptime_seconds ∷ []),
)

pub check_disk_iff : (d : DiskMetrics) → (check_disk d ≡ none) ↔ IsValidDisk d
unfolding check_disk
check_disk_iff d = ground (
  arith,
  validate_unsigned_bigints_iff (
      d.read_bytes_total ∷ d.write_bytes_total ∷ d.read_bytes_delta ∷ d.write_bytes_delta
      ∷ d.read_ops_delta ∷ d.write_ops_delta ∷ []),
)

pub check_filesystem_metric_iff :
    (known : List Text) (item : FilesystemMetrics)
    → (check_filesystem_metric known item ≡ none) ↔ IsValidFilesystemMetric known item
unfolding check_filesystem_metric
check_filesystem_metric_iff known item = ground (
  arith,
  contains_iff known item.filesystem_key,
  validate_unsigned_bigints_iff (
      item.total_bytes ∷ item.used_bytes ∷ item.available_bytes ∷ item.total_inodes
      ∷ item.used_inodes ∷ []),
)

pub check_network_metric_iff :
    (known : List Text) (item : NetworkMetrics)
    → (check_network_metric known item ≡ none) ↔ IsValidNetworkMetric known item
unfolding check_network_metric
check_network_metric_iff known item = ground (
  arith,
  contains_iff known item.interface_key,
  validate_unsigned_bigints_iff (
      item.rx_bytes_total ∷ item.tx_bytes_total ∷ item.rx_bytes_delta ∷ item.tx_bytes_delta
      ∷ item.rx_packets_delta ∷ item.tx_packets_delta ∷ item.rx_errors_delta ∷ item.tx_errors_delta
      ∷ item.rx_dropped_delta ∷ item.tx_dropped_delta ∷ []),
)

pub check_gpu_metric_iff :
    (gpus : List Gpu) (item : GpuMetrics)
    → (check_gpu_metric gpus item ≡ none) ↔ IsValidGpuMetric gpus item
unfolding check_gpu_metric check_gpu_usage
check_gpu_metric_iff gpus item = ground (
  arith,
  bad_temperature_iff item.temperature_celsius,
  validate_unsigned_bigints_iff (item.memory_used_bytes ∷ []),
)

pub check_temperature_iff :
    (item : TemperatureMetrics) → (check_temperature item ≡ none) ↔ IsValidTemperature item
unfolding check_temperature
check_temperature_iff item = ground (
  arith,
  contains_iff components item.component,
  is_empty-false_iff (trim_space item.label),
  valid_temperature_iff item.temperature_celsius,
  bad_temperature_iff item.high_celsius,
  bad_temperature_iff item.critical_celsius,
)

allowed_reason_iff :
    (key reason : Text)
    → ((reject (not (contains risk_reasons reason)) (invalid_risk_reason key) >> none) ≡ none)
      ↔ Mem reason risk_reasons
allowed_reason_iff key reason = ground (arith, contains_iff risk_reasons reason)

pub check_reasons_iff :
    (key : Text) (reasons : List Text)
    → (check_reasons key reasons ≡ none) ↔ (All (λ r. Mem r risk_reasons) reasons × Nodup reasons)
unfolding check_reasons
check_reasons_iff key reasons = rw List.map-id at (
    for_distinct_iff (λ (reason : Text). reason) (duplicate_risk_reason key)
      (λ reason. reject (not (contains risk_reasons reason)) (invalid_risk_reason key))
      (λ reason. none) (λ r. Mem r risk_reasons) (allowed_reason_iff key) reasons)

pub record IsValidHealthState (known : List Text) (item : StorageHealth) : Type 0 where
  pub known_key : Mem item.block_device_key known
  pub status : Mem item.smart_status smart_statuses
  pub level : Mem item.risk_level risk_levels
  pub temperature : IsTemperatureOption item.temperature_celsius
  pub wear : IsWithinOption 0 255 item.percentage_used

pub record AreValidHealthCounters (item : StorageHealth) : Type 0 where
  pub few_reasons : length item.risk_reasons ≤ 32
  pub reasons : All (λ r. Mem r risk_reasons) item.risk_reasons
  pub distinct_reasons : Nodup item.risk_reasons
  pub hours : FitsOption item.power_on_hours
  pub errors : FitsOption item.error_count
  pub rate : FitsOption item.read_error_rate_normalized × FitsOption item.read_error_rate_raw
  pub sectors :
      FitsOption item.reallocated_sectors
      × FitsOption item.pending_sectors
      × FitsOption item.uncorrectable_sectors

pub record IsValidStorageHealth (known : List Text) (item : StorageHealth) : Type 0 where
  pub state : IsValidHealthState known item
  pub counters : AreValidHealthCounters item

check_health_state_iff :
    (known : List Text) (item : StorageHealth)
    → (check_health_state known item ≡ none) ↔ IsValidHealthState known item
unfolding check_health_state
check_health_state_iff known item = ground (
  arith,
  contains_iff known item.block_device_key,
  contains_iff smart_statuses item.smart_status,
  contains_iff risk_levels item.risk_level,
  bad_temperature_iff item.temperature_celsius,
  bad_percentage_iff item.percentage_used,
)

check_health_counters_iff :
    (item : StorageHealth) → (check_health_counters item ≡ none) ↔ AreValidHealthCounters item
unfolding check_health_counters
check_health_counters_iff item = ground (
  arith,
  check_reasons_iff item.block_device_key item.risk_reasons,
  validate_optional_unsigned_bigints_iff (
      item.power_on_hours ∷ item.error_count ∷ item.read_error_rate_normalized
      ∷ item.read_error_rate_raw ∷ item.reallocated_sectors ∷ item.pending_sectors
      ∷ item.uncorrectable_sectors ∷ []),
)

pub check_storage_health_iff :
    (known : List Text) (item : StorageHealth)
    → (check_storage_health known item ≡ none) ↔ IsValidStorageHealth known item
unfolding check_storage_health
check_storage_health_iff known item =
    ground (arith, check_health_state_iff known item, check_health_counters_iff item)
