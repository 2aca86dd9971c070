-- ===== src/Agent/Health/Types.antt =====
-- The documents that smartctl prints, as health.go decodes them; a json.Number is its text.
use server_status.Base.{ℕ, List, Option, Bool}
use server_status.Base.Float.{Float}
use server_status.Base.Int.{ℤ}
use server_status.Base.Text.{Text}

pub record SmartDevice : Type 0 where
  pub name : Text
  pub info_name : Text
  pub type : Text
  pub protocol : Text

-- smartATAAttribute
pub record SmartAtaAttribute : Type 0 where
  pub id : ℤ
  pub name : Text
  pub value : Text
  pub worst : Text
  pub threshold : Text
  pub when_failed : Text
  pub raw_value : Text

-- The log of an NVMe drive.
pub record NvmeHealth : Type 0 where
  pub critical_warning : Text
  pub temperature : Option Float
  pub percentage_used : Option Float
  pub media_errors : Text
  pub error_log_entries : Text
  pub power_on_hours : Text

-- total_uncorrected_errors of the three smartSCSIErrorCounters.
pub record ScsiErrorLog : Type 0 where
  pub read : Text
  pub write : Text
  pub verify : Text

pub record SmartctlDocument : Type 0 where
  pub exit_status : ℤ
  pub device : SmartDevice
  pub model_family : Text
  pub model_name : Text
  pub serial_number : Text
  pub firmware : Text
  pub scsi_vendor : Text
  pub scsi_product : Text
  pub scsi_model_name : Text
  pub logical_unit_id : Text
  pub rotation_rate : Option ℕ
  pub user_capacity_bytes : Text
  pub smart_available : Bool
  pub smart_enabled : Bool
  pub smart_passed : Option Bool
  pub current_temperature : Option Float
  pub drive_trip_temperature : Option Float
  pub power_on_hours : Text
  pub ata_attributes : List SmartAtaAttribute
  pub ata_error_count : Text
  pub nvme_health : NvmeHealth
  pub scsi_error_log : ScsiErrorLog

pub record SmartSample : Type 0 where
  pub device : SmartDevice
  pub doc : SmartctlDocument
  pub ok : Bool
