-- ===== src/Report/Measurements/Rules.antt =====
-- The checks of one metric, as in the loops of validateMetrics (internal/report/validate.go).
use server_status.Base.{
  ℕ, Bool, false, not, ◌&&◌, ◌||◌, List, [], ◌∷◌, Option, none, some, ltb, ◌==◌, if◌then◌else◌,
  length,
}
use server_status.Base.Check.{◌>>◌, reject, wrap}
use server_status.Base.Distinct.{for_distinct}
use server_status.Base.Text.{Text, codes, text_eq, contains, is_blank}
use server_status.Base.Float.{Float, of_nat, absolute_zero, is_nan, is_inf, ◌<F◌, ◌≤F◌}
use server_status.Report.Inventory.{Gpu}
use server_status.Report.Types.{
  MemoryMetrics, DiskMetrics, FilesystemMetrics, NetworkMetrics, GpuMetrics, TemperatureMetrics,
  StorageHealth,
}
use server_status.Report.Bigint.{validate_unsigned_bigints, validate_optional_unsigned_bigints}
use server_status.Report.Error.{
  ValidationError, memory_metrics, memory_exceeds_total, disk_metrics, unknown_filesystem,
  filesystem_metric, filesystem_exceeds_total, unknown_interface, network_metric, unknown_gpu,
  invalid_gpu_utilization, invalid_gpu_temperature, gpu_metric, gpu_memory_exceeds_total,
  invalid_component, invalid_temperature_metric, unknown_block_device, invalid_smart_status,
  invalid_risk_level, invalid_storage_health, too_many_risk_reasons, invalid_risk_reason,
  duplicate_risk_reason, health_metric,
}

unfoldable pub valid_temperature : Float → Bool
valid_temperature value =
    not (is_nan value) && not (is_inf value) && (absolute_zero ≤F value) && (value ≤F of_nat 1000)

-- `value != nil && !validTemperature(*value)`
unfoldable pub bad_temperature : Option Float → Bool
bad_temperature none = false
bad_temperature (some value) = not (valid_temperature value)

unfoldable pub check_memory : MemoryMetrics → Option ValidationError
check_memory m =
    wrap memory_metrics (
      validate_unsigned_bigints (
        m.total_bytes ∷ m.used_bytes ∷ m.available_bytes ∷ m.cached_bytes ∷ m.buffers_bytes
        ∷ m.swap_total_bytes ∷ m.swap_used_bytes ∷ m.uptime_seconds ∷ []))
    >> reject
        (ltb m.total_bytes m.used_bytes
          || ltb m.total_bytes m.available_bytes
          || ltb m.total_bytes m.cached_bytes
          || ltb m.total_bytes m.buffers_bytes
          || ltb m.swap_total_bytes m.swap_used_bytes)
        memory_exceeds_total

unfoldable pub check_disk : DiskMetrics → Option ValidationError
check_disk d = wrap disk_metrics (
    validate_unsigned_bigints (
      d.read_bytes_total ∷ d.write_bytes_total ∷ d.read_bytes_delta ∷ d.write_bytes_delta
      ∷ d.read_ops_delta ∷ d.write_ops_delta ∷ []))

-- `known` are the keys of filesystemKeys.
unfoldable pub check_filesystem_metric : List Text → FilesystemMetrics → Option ValidationError
check_filesystem_metric known item =
    reject (not (contains known item.filesystem_key)) (unknown_filesystem item.filesystem_key)
    >> wrap (filesystem_metric item.filesystem_key) (
        validate_unsigned_bigints (
          item.total_bytes ∷ item.used_bytes ∷ item.available_bytes ∷ item.total_inodes
          ∷ item.used_inodes ∷ []))
    >> reject
        (ltb item.total_bytes item.used_bytes
          || ltb item.total_bytes item.available_bytes
          || (ltb item.total_inodes item.used_inodes && not (item.total_inodes == 0)))
        (filesystem_exceeds_total item.filesystem_key)

unfoldable pub check_network_metric : List Text → NetworkMetrics → Option ValidationError
check_network_metric known item =
    reject (not (contains known item.interface_key)) (unknown_interface item.interface_key)
    >> wrap (network_metric item.interface_key) (
        validate_unsigned_bigints (
          item.rx_bytes_total ∷ item.tx_bytes_total ∷ item.rx_bytes_delta ∷ item.tx_bytes_delta
          ∷ item.rx_packets_delta ∷ item.tx_packets_delta ∷ item.rx_errors_delta
          ∷ item.tx_errors_delta ∷ item.rx_dropped_delta ∷ item.tx_dropped_delta ∷ []))

-- `gpuMemoryByKey[key]`: of two GPUs with one key the later is in the map.
unfoldable pub gpu_memory : List Gpu → Text → Option ℕ
gpu_memory [] key = none
gpu_memory (item ∷ items) key = elim (gpu_memory items key) [
  | some memory ↦ some memory
  | none ↦ if text_eq item.key key then some item.memory_total_bytes else none
]

-- The checks behind the lookup of the GPU's memory.
unfoldable pub check_gpu_usage : GpuMetrics → Option ℕ → Option ValidationError
check_gpu_usage item none = some (unknown_gpu item.gpu_key)
check_gpu_usage item (some memory_total) =
    reject ((item.utilization_percent <F of_nat 0) || (of_nat 100 <F item.utilization_percent))
      (invalid_gpu_utilization item.gpu_key)
    >> reject (bad_temperature item.temperature_celsius) (invalid_gpu_temperature item.gpu_key)
    >> wrap (gpu_metric item.gpu_key) (validate_unsigned_bigints (item.memory_used_bytes ∷ []))
    >> reject (ltb memory_total item.memory_used_bytes) (gpu_memory_exceeds_total item.gpu_key)

unfoldable pub check_gpu_metric : List Gpu → GpuMetrics → Option ValidationError
check_gpu_metric gpus item = check_gpu_usage item (gpu_memory gpus item.gpu_key)

abbrev pub components : List Text
components = codes "cpu" ∷ codes "motherboard" ∷ codes "gpu" ∷ codes "storage" ∷ codes "other" ∷ []

unfoldable pub check_temperature : TemperatureMetrics → Option ValidationError
check_temperature item =
    reject (not (contains components item.component)) (invalid_component item.key item.component)
    >> reject
        (is_blank item.label
          || not (valid_temperature item.temperature_celsius)
          || bad_temperature item.high_celsius
          || bad_temperature item.critical_celsius)
        (invalid_temperature_metric item.key)

abbrev pub smart_statuses : List Text
smart_statuses = codes "passed" ∷ codes "failed" ∷ codes "unknown" ∷ []

abbrev pub risk_levels : List Text
risk_levels = codes "healthy" ∷ codes "warning" ∷ codes "critical" ∷ codes "unknown" ∷ []

abbrev pub risk_reasons : List Text
risk_reasons =
    codes "smart_failed"
    ∷ codes "prefail_attribute"
    ∷ codes "nvme_critical_warning"
    ∷ codes "pending_sectors"
    ∷ codes "uncorrectable_sectors"
    ∷ codes "reallocated_sectors"
    ∷ codes "device_errors"
    ∷ codes "age_attribute"
    ∷ codes "device_error_log"
    ∷ codes "self_test_errors"
    ∷ codes "wear_exhausted"
    ∷ codes "wear_high"
    ∷ []

-- The loop over the risk reasons, with its set seenReasons.
unfoldable pub check_reasons : Text → List Text → Option ValidationError
check_reasons key =
    for_distinct (λ reason. reason) (duplicate_risk_reason key)
      (λ reason. reject (not (contains risk_reasons reason)) (invalid_risk_reason key))
      (λ reason. none) []

-- `value != nil && (*value < 0 || *value > 255)`
unfoldable pub bad_percentage : Option Float → Bool
bad_percentage none = false
bad_percentage (some value) = (value <F of_nat 0) || (of_nat 255 <F value)

-- The key, the enumerated values and the two numbers of one drive.
unfoldable pub check_health_state : List Text → StorageHealth → Option ValidationError
check_health_state known item =
    reject (not (contains known item.block_device_key)) (unknown_block_device item.block_device_key)
    >> reject (not (contains smart_statuses item.smart_status))
        (invalid_smart_status item.block_device_key item.smart_status)
    >> reject (not (contains risk_levels item.risk_level))
        (invalid_risk_level item.block_device_key item.risk_level)
    >> reject (bad_temperature item.temperature_celsius || bad_percentage item.percentage_used)
        (invalid_storage_health item.block_device_key)

-- Its risk reasons and its counters.
unfoldable pub check_health_counters : StorageHealth → Option ValidationError
check_health_counters item =
    reject (ltb 32 (length item.risk_reasons)) (too_many_risk_reasons item.block_device_key)
    >> check_reasons item.block_device_key item.risk_reasons
    >> wrap (health_metric item.block_device_key) (
        validate_optional_unsigned_bigints (
          item.power_on_hours ∷ item.error_count ∷ item.read_error_rate_normalized
          ∷ item.read_error_rate_raw ∷ item.reallocated_sectors ∷ item.pending_sectors
          ∷ item.uncorrectable_sectors ∷ []))

unfoldable pub check_storage_health : List Text → StorageHealth → Option ValidationError
check_storage_health known item = check_health_state known item >> check_health_counters item

-- Unfolds every check, for evaluation.
unfoldable pub rules : Unit {0}
unfolding valid_temperature bad_temperature check_memory check_disk check_filesystem_metric
    check_network_metric gpu_memory check_gpu_usage check_gpu_metric check_temperature check_reasons
    bad_percentage check_health_state check_health_counters check_storage_health
rules = tt
