-- ===== src/Store/Tables.antt =====
-- The tables that Ingest of internal/store/ingest.go reads and writes.
use server_status.Base.{List, Option}
use server_status.Base.Text.{Text}
use server_status.Store.Table.{Row, Time}
use server_status.Store.Inventory.{
  GpuColumns, CpuPackageColumns, MemoryModuleColumns, BlockDeviceColumns, FilesystemColumns,
}
use server_status.Store.Network.{InterfaceColumns, AddressRow}
use server_status.Store.Samples.{NodeSample, FilesystemSample, NetworkSample, GpuSample}
use server_status.Store.Snapshots.{Current, TemperatureColumns, StorageHealthColumns}

-- The columns of monitoring.nodes that a report fills.
pub record ReportingNode : Type 0 where
  pub id : Text
  pub hostname : Text
  pub os_name : Text
  pub os_version : Option Text
  pub kernel_version : Option Text
  pub architecture : Text
  pub agent_version : Text
  pub labels : List (Text × Text)
  pub inventory_fingerprint : Option Text
  pub last_seen_at : Option Time
  pub updated_at : Time

pub record TokenUsage : Type 0 where
  pub id : Text
  pub last_used_at : Option Time

-- The inventory tables.
pub record Resources : Type 0 where
  pub cpu_packages : List (Row CpuPackageColumns)
  pub memory_modules : List (Row MemoryModuleColumns)
  pub block_devices : List (Row BlockDeviceColumns)
  pub filesystems : List (Row FilesystemColumns)
  pub interfaces : List (Row InterfaceColumns)
  pub addresses : List AddressRow
  pub gpus : List (Row GpuColumns)

pub record Tables : Type 0 where
  pub nodes : List ReportingNode
  pub tokens : List TokenUsage
  pub resources : Resources
  pub node_samples : List NodeSample
  pub filesystem_samples : List FilesystemSample
  pub network_samples : List NetworkSample
  pub gpu_samples : List GpuSample
  pub temperatures : List (Current TemperatureColumns)
  pub storage_health : List (Current StorageHealthColumns)

-- The identifiers that the database chooses for new rows.
pub record NewIds : Type 0 where
  pub cpu_package : List (Row CpuPackageColumns) → Text
  pub memory_module : List (Row MemoryModuleColumns) → Text
  pub block_device : List (Row BlockDeviceColumns) → Text
  pub filesystem : List (Row FilesystemColumns) → Text
  pub interface : List (Row InterfaceColumns) → Text
  pub address : List AddressRow → Text
  pub gpu : List (Row GpuColumns) → Text
