-- ===== src/Store/Nodes.antt =====
-- internal/store/query.go: what the store tells of a node. An int64 is a ℤ.
pub mod Read
pub mod Normal
use server_status.Base.{Bool, List, Option}
use server_status.Base.Float.{Float}
use server_status.Base.Int.{ℤ}
use server_status.Base.Text.{Text}
use server_status.Store.History.Gpus.{GpuHistorySeries}
use server_status.Store.Table.{Time}

-- Nil tags are `none`.
pub record NodeSummary : Type 0 where
  pub node_id : Text
  pub agent_id : Text
  pub hostname : Text
  pub display_name : Text
  pub os_name : Text
  pub os_version : Text
  pub architecture : Text
  pub agent_version : Text
  pub labels : List (Text × Text)
  pub tags : Option (List Text)
  pub machine_type : Text
  pub system_model : Text
  pub has_nvidia_gpu : Bool
  pub last_seen_at : Time
  pub status : Text
  pub primary_ip : Text
  pub seconds_since_last_seen : ℤ
  pub latest_bucket_at : Option Time
  pub cpu_usage_percent : Float
  pub load_1 : Float
  pub load_5 : Float
  pub load_15 : Float
  pub memory_total_bytes : ℤ
  pub memory_used_bytes : ℤ
  pub memory_usage_percent : Float
  pub uptime_seconds : ℤ
  pub cpu_package_count : ℤ
  pub cpu_physical_core_count : ℤ
  pub cpu_logical_thread_count : ℤ
  pub cpu_threads_per_package : List ℤ
  pub cpu_models : List Text
  pub memory_module_count : ℤ
  pub inventory_memory_bytes : ℤ
  pub memory_models : List Text
  pub disk_count : ℤ
  pub disk_total_bytes : ℤ
  pub disk_models : List Text
  pub disk_usage_percent : Float
  pub disk_read_bytes_per_second : Float
  pub disk_write_bytes_per_second : Float
  pub network_rx_bytes_per_second : Float
  pub network_tx_bytes_per_second : Float

pub record FilesystemStatus : Type 0 where
  pub filesystem_id : Text
  pub device_name : Text
  pub filesystem_type : Text
  pub mount_point : Text
  pub bucket_at : Option Time
  pub total_bytes : ℤ
  pub used_bytes : ℤ
  pub available_bytes : ℤ
  pub used_percent : Float

pub record NetworkStatus : Type 0 where
  pub interface_id : Text
  pub name : Text
  pub is_primary : Bool
  pub mac_address : Text
  pub mtu : ℤ
  pub link_speed_mbps : ℤ
  pub addresses : List Text
  pub bucket_at : Option Time
  pub link_up : Bool
  pub rx_bytes_total : ℤ
  pub tx_bytes_total : ℤ
  pub rx_bits_per_second : Float
  pub tx_bits_per_second : Float

pub record CpuHardware : Type 0 where
  pub package_index : ℤ
  pub vendor : Text
  pub model_name : Text
  pub physical_cores : ℤ
  pub logical_threads : ℤ
  pub performance_cores : ℤ
  pub efficiency_cores : ℤ
  pub max_frequency_mhz : Float

pub record MemoryHardware : Type 0 where
  pub slot_name : Text
  pub manufacturer : Text
  pub model_name : Text
  pub part_number : Text
  pub serial_number : Text
  pub memory_type : Text
  pub size_bytes : ℤ
  pub speed_mts : ℤ

pub record BlockDeviceHardware : Type 0 where
  pub device_name : Text
  pub device_kind : Text
  pub vendor : Text
  pub model_name : Text
  pub serial_number : Text
  pub wwn : Text
  pub size_bytes : ℤ
  pub rotational : Option Bool
  pub protocol : Text
  pub smart_device_type : Text
  pub raid_passthrough : Bool
  pub health_collected_at : Option Time
  pub smart_available : Bool
  pub smart_enabled : Bool
  pub smart_status : Text
  pub risk_level : Text
  pub risk_reasons : List Text
  pub temperature_celsius : Option Float
  pub power_on_hours : Option ℤ
  pub error_count : Option ℤ
  pub read_error_rate_normalized : Option ℤ
  pub read_error_rate_raw : Option ℤ
  pub reallocated_sectors : Option ℤ
  pub pending_sectors : Option ℤ
  pub uncorrectable_sectors : Option ℤ
  pub percentage_used : Option Float

pub record TemperatureStatus : Type 0 where
  pub key : Text
  pub component : Text
  pub label : Text
  pub bucket_at : Time
  pub temperature_celsius : Float
  pub high_celsius : Option Float
  pub critical_celsius : Option Float

pub record GpuStatus : Type 0 where
  pub gpu_device_id : Text
  pub index : ℤ
  pub uuid : Text
  pub model_name : Text
  pub bucket_at : Option Time
  pub utilization_percent : Float
  pub memory_total_bytes : ℤ
  pub memory_used_bytes : ℤ
  pub memory_usage_percent : Float

pub record NodeDetail : Type 0 where
  pub node : NodeSummary
  pub cpu_packages : List CpuHardware
  pub memory_modules : List MemoryHardware
  pub block_devices : List BlockDeviceHardware
  pub temperatures : List TemperatureStatus
  pub gpus : List GpuStatus
  pub filesystems : List FilesystemStatus
  pub network : List NetworkStatus

pub record HistoryPoint : Type 0 where
  pub bucket_at : Time
  pub cpu_usage_percent : Float
  pub memory_usage_percent : Float
  pub disk_usage_percent : Float
  pub disk_read_bytes_per_second : Float
  pub disk_write_bytes_per_second : Float
  pub network_rx_bytes_per_second : Float
  pub network_tx_bytes_per_second : Float

pub record NodeHistory : Type 0 where
  pub node_id : Text
  pub range : Text
  pub resolution : Text
  pub points : List HistoryPoint
  pub gpus : List GpuHistorySeries
