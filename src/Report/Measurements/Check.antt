-- ===== src/Report/Measurements/Check.antt =====
-- validateMetrics of internal/report/validate.go: the memory and the disk, then for each list of
-- metrics its keys and its items, with the keys of the inventory that they may name.
use server_status.Base.{◌≤◌, ◌||◌, List, map, Option, none, ltb, ◌≡◌, ◌↔◌, arith, length}
use server_status.Base.Check.{◌>>◌, reject}
use server_status.Base.Text.{Text, codes}
use server_status.Report.Inventory.{Inventory, BlockDevice, Filesystem, NetworkInterface}
use server_status.Report.Types.{
  Metrics, FilesystemMetrics, NetworkMetrics, GpuMetrics, TemperatureMetrics, StorageHealth,
}
use server_status.Report.Error.{ValidationError, too_many_health_resources}
use server_status.Report.Hardware.Check.{check_items, check_items_iff, AreValidItems}
use server_status.Report.Measurements.Rules.{
  check_memory, check_disk, check_filesystem_metric, check_network_metric, check_gpu_metric,
  check_temperature, check_storage_health,
}
use server_status.Report.Measurements.Valid.{
  IsValidMemory, IsValidDisk, IsValidFilesystemMetric, IsValidNetworkMetric, IsValidGpuMetric,
  IsValidTemperature, IsValidStorageHealth, check_memory_iff, check_disk_iff,
  check_filesystem_metric_iff, check_network_metric_iff, check_gpu_metric_iff,
  check_temperature_iff, check_storage_health_iff,
}

-- The keys of the sets filesystemKeys, interfaceKeys and blockDeviceKeys.
abbrev pub filesystem_keys : Inventory → List Text
filesystem_keys inventory = map (λ (i : Filesystem). i.key) inventory.filesystems

abbrev pub interface_keys : Inventory → List Text
interface_keys inventory = map (λ (i : NetworkInterface). i.key) inventory.network_interfaces

abbrev pub block_device_keys : Inventory → List Text
block_device_keys inventory = map (λ (i : BlockDevice). i.key) inventory.block_devices

unfoldable pub validate_metrics : Inventory → Metrics → Option ValidationError
validate_metrics inventory metrics =
    check_memory metrics.memory
    >> check_disk metrics.disk
    >> check_items (codes "filesystem metric") (λ i. i.filesystem_key)
        (check_filesystem_metric (filesystem_keys inventory)) metrics.filesystems
    >> check_items (codes "network metric") (λ i. i.interface_key)
        (check_network_metric (interface_keys inventory)) metrics.network
    >> check_items (codes "GPU metric") (λ i. i.gpu_key) (check_gpu_metric inventory.gpus)
        metrics.gpus
    >> reject (ltb 4096 (length metrics.temperatures) || ltb 4096 (length metrics.storage_health))
        too_many_health_resources
    >> check_items (codes "temperature metric") (λ i. i.key) check_temperature metrics.temperatures
    >> check_items (codes "storage health metric") (λ i. i.block_device_key)
        (check_storage_health (block_device_keys inventory)) metrics.storage_health

pub record AreValidMetrics (inventory : Inventory) (metrics : Metrics) : Type 0 where
  pub memory : IsValidMemory metrics.memory
  pub disk : IsValidDisk metrics.disk
  pub filesystems :
      AreValidItems
        (λ (i : FilesystemMetrics). i.filesystem_key)
        (IsValidFilesystemMetric (filesystem_keys inventory))
        metrics.filesystems
  pub network :
      AreValidItems
        (λ (i : NetworkMetrics). i.interface_key)
        (IsValidNetworkMetric (interface_keys inventory))
        metrics.network
  pub gpus :
      AreValidItems (λ (i : GpuMetrics). i.gpu_key) (IsValidGpuMetric inventory.gpus) metrics.gpus
  pub few_temperatures : length metrics.temperatures ≤ 4096
  pub few_health : length metrics.storage_health ≤ 4096
  pub temperatures :
      AreValidItems (λ (i : TemperatureMetrics). i.key) IsValidTemperature metrics.temperatures
  pub storage_health :
      AreValidItems
        (λ (i : StorageHealth). i.block_device_key)
        (IsValidStorageHealth (block_device_keys inventory))
        metrics.storage_health

-- validateMetrics accepts exactly the metrics that are valid for the inventory.
pub validate_metrics_iff :
    (inventory : Inventory) (metrics : Metrics)
    → (validate_metrics inventory metrics ≡ none) ↔ AreValidMetrics inventory metrics
unfolding validate_metrics
validate_metrics_iff inventory metrics = ground (
  arith,
  check_memory_iff metrics.memory,
  check_disk_iff metrics.disk,
  check_items_iff (codes "filesystem metric") (λ (i : FilesystemMetrics). i.filesystem_key) _ _
      (check_filesystem_metric_iff (filesystem_keys inventory)) metrics.filesystems,
  check_items_iff (codes "network metric") (λ (i : NetworkMetrics). i.interface_key) _ _
      (check_network_metric_iff (interface_keys inventory)) metrics.network,
  check_items_iff (codes "GPU metric") (λ (i : GpuMetrics). i.gpu_key) _ _
      (check_gpu_metric_iff inventory.gpus) metrics.gpus,
  check_items_iff (codes "temperature metric") (λ (i : TemperatureMetrics). i.key) _ _
      check_temperature_iff metrics.temperatures,
  check_items_iff (codes "storage health metric") (λ (i : StorageHealth). i.block_device_key) _ _
      (check_storage_health_iff (block_device_keys inventory)) metrics.storage_health,
)
