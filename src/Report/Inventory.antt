-- ===== src/Report/Inventory.antt =====
-- internal/report/types.go, the inventory part of a report. Strings are `Text`, Go's int is `ℤ`, its
-- uint64 `ℕ`, float64 `Float`, a pointer an `Option`.
use server_status.Base.{ℕ, Bool, List, Option}
use server_status.Base.Text.{Text}
use server_status.Base.Int.{ℤ}
use server_status.Base.Float.{Float}

pub record Gpu : Type 0 where
  pub key : Text
  pub index : ℤ
  pub uuid : Text
  pub model_name : Text
  pub memory_total_bytes : ℕ

pub record CpuPackage : Type 0 where
  pub key : Text
  pub package_index : ℤ
  pub vendor : Text
  pub model_name : Text
  pub physical_cores : ℤ
  pub logical_threads : ℤ
  pub performance_cores : ℤ
  pub efficiency_cores : ℤ
  pub max_frequency_mhz : Float

pub record MemoryModule : Type 0 where
  pub key : Text
  pub slot_name : Text
  pub manufacturer : Text
  pub model_name : Text
  pub part_number : Text
  pub serial_number : Text
  pub memory_type : Text
  pub size_bytes : ℕ
  pub speed_mts : ℤ

pub record BlockDevice : Type 0 where
  pub key : Text
  pub device_name : Text
  pub device_kind : Text
  pub vendor : Text
  pub model_name : Text
  pub serial_number : Text
  pub wwn : Text
  pub size_bytes : ℕ
  pub rotational : Option Bool
  pub protocol : Text
  pub smart_device_type : Text
  pub raid_passthrough : Bool

pub record Filesystem : Type 0 where
  pub key : Text
  pub uuid : Text
  pub device_name : Text
  pub filesystem_type : Text
  pub mount_point : Text
  pub mount_options : List Text

pub record NetworkAddress : Type 0 where
  pub address : Text
  pub scope : Text

pub record NetworkInterface : Type 0 where
  pub key : Text
  pub name : Text
  pub mac_address : Text
  pub mtu : ℤ
  pub link_speed_mbps : ℤ
  pub addresses : List NetworkAddress

pub record Inventory : Type 0 where
  pub cpu_packages : List CpuPackage
  pub memory_modules : List MemoryModule
  pub block_devices : List BlockDevice
  pub filesystems : List Filesystem
  pub network_interfaces : List NetworkInterface
  pub gpus : List Gpu
