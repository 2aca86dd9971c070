-- ===== src/Report/Types.antt =====
-- internal/report/types.go: the metrics, the agent and the report itself. A `time.Time` is the number
-- of nanoseconds since Go's zero time.
use server_status.Base.{ℕ, Bool, List, Option}
use server_status.Base.Text.{Text}
use server_status.Base.Int.{ℤ}
use server_status.Base.Float.{Float}
use server_status.Report.Inventory.{Inventory}

abbrev pub Time : Type 0
Time = ℤ

pub record TemperatureMetrics : Type 0 where
  pub key : Text
  pub component : Text
  pub label : Text
  pub temperature_celsius : Float
  pub high_celsius : Option Float
  pub critical_celsius : Option Float

pub record StorageHealth : Type 0 where
  pub block_device_key : Text
  pub smart_available : Bool
  pub smart_enabled : Bool
  pub smart_status : Text
  pub risk_level : Text
  pub risk_reasons : List Text
  pub temperature_celsius : Option Float
  pub power_on_hours : Option ℕ
  pub error_count : Option ℕ
  pub read_error_rate_normalized : Option ℕ
  pub read_error_rate_raw : Option ℕ
  pub reallocated_sectors : Option ℕ
  pub pending_sectors : Option ℕ
  pub uncorrectable_sectors : Option ℕ
  pub percentage_used : Option Float

pub record GpuMetrics : Type 0 where
  pub gpu_key : Text
  pub utilization_percent : Float
  pub memory_used_bytes : ℕ
  pub temperature_celsius : Option Float

pub record CpuMetrics : Type 0 where
  pub usage_percent : Float
  pub load_1 : Float
  pub load_5 : Float
  pub load_15 : Float

pub record MemoryMetrics : Type 0 where
  pub total_bytes : ℕ
  pub used_bytes : ℕ
  pub available_bytes : ℕ
  pub cached_bytes : ℕ
  pub buffers_bytes : ℕ
  pub swap_total_bytes : ℕ
  pub swap_used_bytes : ℕ
  pub uptime_seconds : ℕ

pub record DiskMetrics : Type 0 where
  pub read_bytes_total : ℕ
  pub write_bytes_total : ℕ
  pub read_bytes_delta : ℕ
  pub write_bytes_delta : ℕ
  pub read_ops_delta : ℕ
  pub write_ops_delta : ℕ

pub record FilesystemMetrics : Type 0 where
  pub filesystem_key : Text
  pub total_bytes : ℕ
  pub used_bytes : ℕ
  pub available_bytes : ℕ
  pub total_inodes : ℕ
  pub used_inodes : ℕ

pub record NetworkMetrics : Type 0 where
  pub interface_key : Text
  pub link_up : Bool
  pub rx_bytes_total : ℕ
  pub tx_bytes_total : ℕ
  pub rx_bytes_delta : ℕ
  pub tx_bytes_delta : ℕ
  pub rx_packets_delta : ℕ
  pub tx_packets_delta : ℕ
  pub rx_errors_delta : ℕ
  pub tx_errors_delta : ℕ
  pub rx_dropped_delta : ℕ
  pub tx_dropped_delta : ℕ

pub record Metrics : Type 0 where
  pub cpu : CpuMetrics
  pub memory : MemoryMetrics
  pub disk : DiskMetrics
  pub filesystems : List FilesystemMetrics
  pub network : List NetworkMetrics
  pub gpus : List GpuMetrics
  pub temperatures : List TemperatureMetrics
  pub storage_health : List StorageHealth

pub record AgentInfo : Type 0 where
  pub id : Text
  pub hostname : Text
  pub os_name : Text
  pub os_version : Text
  pub kernel_version : Text
  pub architecture : Text
  pub agent_version : Text
  pub machine_type : Text
  pub system_model : Text
  pub primary_ip : Text
  pub labels : List (Text × Text)

pub record Report : Type 0 where
  pub version : ℤ
  pub collected_at : Time
  pub interval_seconds : ℤ
  pub inventory_fingerprint : Text
  pub agent : AgentInfo
  pub inventory : Inventory
  pub metrics : Metrics

pub record AgentUpdate : Type 0 where
  pub version : Text

pub record ReportReceipt : Type 0 where
  pub status : Text
  pub bucket_at : Time
  pub agent_update : Option AgentUpdate
