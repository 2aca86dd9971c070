-- ===== src/Store/Inventory.antt =====
-- The tables of the inventory and their sync functions: internal/store/ingest.go.
use server_status.Base.{List, Bool, Option, none, some, if◌then◌else◌}
use server_status.Base.Float.{Float, is_zero}
use server_status.Base.Int.{ℤ, pos, eqb_ℤ, to_int64}
use server_status.Base.Text.{Text, is_empty}
use server_status.Report.Inventory.{Gpu, CpuPackage, MemoryModule, BlockDevice, Filesystem}
use server_status.Store.Table.{Row, Time}
use server_status.Store.Sync.{sync}

-- `NULLIF($1, '')`
unfoldable pub null_if_empty : Text → Option Text
null_if_empty s = if is_empty s then none else some s

-- `NULLIF($1, 0)`
unfoldable pub null_if_zero : ℤ → Option ℤ
null_if_zero n = if eqb_ℤ n (pos 0) then none else some n

unfoldable pub null_if_zero_float : Float → Option Float
null_if_zero_float x = if is_zero x then none else some x

-- The columns of monitoring.gpu_devices.
pub record GpuColumns : Type 0 where
  pub device_index : ℤ
  pub gpu_uuid : Text
  pub model_name : Text
  pub memory_total_bytes : ℤ

unfoldable pub gpu_columns : Gpu → GpuColumns
gpu_columns item = record {
  device_index = item.index;
  gpu_uuid = item.uuid;
  model_name = item.model_name;
  memory_total_bytes = to_int64 item.memory_total_bytes;
}

unfoldable pub sync_gpus :
    (List (Row GpuColumns) → Text)
    → Text
    → List Gpu
    → Time
    → List (Row GpuColumns)
    → List (Row GpuColumns)
unfolding gpu_columns
sync_gpus new_id = sync new_id (λ (item : Gpu). item.key) gpu_columns

-- The columns of monitoring.cpu_packages.
pub record CpuPackageColumns : Type 0 where
  pub package_index : ℤ
  pub vendor : Option Text
  pub model_name : Text
  pub physical_cores : ℤ
  pub logical_threads : ℤ
  pub performance_cores : ℤ
  pub efficiency_cores : ℤ
  pub max_frequency_mhz : Option Float

unfoldable pub cpu_package_columns : CpuPackage → CpuPackageColumns
cpu_package_columns item = record {
  package_index = item.package_index;
  vendor = null_if_empty item.vendor;
  model_name = item.model_name;
  physical_cores = item.physical_cores;
  logical_threads = item.logical_threads;
  performance_cores = item.performance_cores;
  efficiency_cores = item.efficiency_cores;
  max_frequency_mhz = null_if_zero_float item.max_frequency_mhz;
}

unfoldable pub sync_cpu_packages :
    (List (Row CpuPackageColumns) → Text)
    → Text
    → List CpuPackage
    → Time
    → List (Row CpuPackageColumns)
    → List (Row CpuPackageColumns)
unfolding cpu_package_columns
sync_cpu_packages new_id = sync new_id (λ (item : CpuPackage). item.key) cpu_package_columns

-- The columns of monitoring.memory_modules.
pub record MemoryModuleColumns : Type 0 where
  pub slot_name : Option Text
  pub manufacturer : Option Text
  pub model_name : Option Text
  pub part_number : Option Text
  pub serial_number : Option Text
  pub memory_type : Option Text
  pub size_bytes : ℤ
  pub speed_mts : Option ℤ

unfoldable pub memory_module_columns : MemoryModule → MemoryModuleColumns
memory_module_columns item = record {
  slot_name = null_if_empty item.slot_name;
  manufacturer = null_if_empty item.manufacturer;
  model_name = null_if_empty item.model_name;
  part_number = null_if_empty item.part_number;
  serial_number = null_if_empty item.serial_number;
  memory_type = null_if_empty item.memory_type;
  size_bytes = to_int64 item.size_bytes;
  speed_mts = null_if_zero item.speed_mts;
}

unfoldable pub sync_memory_modules :
    (List (Row MemoryModuleColumns) → Text)
    → Text
    → List MemoryModule
    → Time
    → List (Row MemoryModuleColumns)
    → List (Row MemoryModuleColumns)
unfolding memory_module_columns
sync_memory_modules new_id = sync new_id (λ (item : MemoryModule). item.key) memory_module_columns

-- The columns of monitoring.block_devices.
pub record BlockDeviceColumns : Type 0 where
  pub device_name : Text
  pub device_kind : Text
  pub vendor : Option Text
  pub model_name : Option Text
  pub serial_number : Option Text
  pub wwn : Option Text
  pub size_bytes : ℤ
  pub rotational : Option Bool
  pub protocol : Option Text
  pub smart_device_type : Option Text
  pub raid_passthrough : Bool

unfoldable pub block_device_columns : BlockDevice → BlockDeviceColumns
block_device_columns item = record {
  device_name = item.device_name;
  device_kind = item.device_kind;
  vendor = null_if_empty item.vendor;
  model_name = null_if_empty item.model_name;
  serial_number = null_if_empty item.serial_number;
  wwn = null_if_empty item.wwn;
  size_bytes = to_int64 item.size_bytes;
  rotational = item.rotational;
  protocol = null_if_empty item.protocol;
  smart_device_type = null_if_empty item.smart_device_type;
  raid_passthrough = item.raid_passthrough;
}

unfoldable pub sync_block_devices :
    (List (Row BlockDeviceColumns) → Text)
    → Text
    → List BlockDevice
    → Time
    → List (Row BlockDeviceColumns)
    → List (Row BlockDeviceColumns)
unfolding block_device_columns
sync_block_devices new_id = sync new_id (λ (item : BlockDevice). item.key) block_device_columns

-- The columns of monitoring.filesystems.
pub record FilesystemColumns : Type 0 where
  pub filesystem_uuid : Option Text
  pub device_name : Text
  pub filesystem_type : Text
  pub mount_point : Text
  pub mount_options : List Text

unfoldable pub filesystem_columns : Filesystem → FilesystemColumns
filesystem_columns item = record {
  filesystem_uuid = null_if_empty item.uuid;
  device_name = item.device_name;
  filesystem_type = item.filesystem_type;
  mount_point = item.mount_point;
  mount_options = item.mount_options;
}

unfoldable pub sync_filesystems :
    (List (Row FilesystemColumns) → Text)
    → Text
    → List Filesystem
    → Time
    → List (Row FilesystemColumns)
    → List (Row FilesystemColumns)
unfolding filesystem_columns
sync_filesystems new_id = sync new_id (λ (item : Filesystem). item.key) filesystem_columns
