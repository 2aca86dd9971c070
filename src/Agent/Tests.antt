-- ===== src/Agent/Tests.antt =====
-- Runs of internal/agent, and the theorems at concrete values.
use mathlib.Core.List.{mem-cons_self}
use server_status.Base.{List, ℕ, ◌+◌, ◌^◌, ◌<◌, [], ◌∷◌, none, some, true, ◌≡◌, ◌↔◌, refl, arith}
use server_status.Base.Int.{pos}
use server_status.Base.Float.{of_nat, ◌<F◌, ◌≤F◌, absolute_zero}
use server_status.Base.Decimal.{parse_uint}
use server_status.Base.Text.{
  Text, codes, text_eq, trim_space, trim_left, trim_right, is_space, has_prefix, byte_len, contains,
  contains_text, to_lower,
}
use server_status.Report.Measurements.Rules.{check_storage_health}
use server_status.Report.Measurements.Valid.{IsTemperatureOption}
use server_status.Report.Bigint.{FitsOption}
use server_status.Agent.Health.Types.{SmartDevice, SmartctlDocument}
use server_status.Agent.Health.Storage.{
  storage_health_from_smart, scsi_errors, assess, measured, smart_uint, add_scsi,
}
use server_status.Agent.Health.Valid.{storage_health_from_smart-accepted}
use server_status.Agent.Health.Level.{storage_health_from_smart-healthy_iff}
use server_status.Agent.Health.Scan.{parse_smart_scan, parse_smart_scan-IsUsableScan, IsUsableScan}
use server_status.Base.Dict.{get}
use server_status.Agent.Collector.{
  DiskCounters, all_bytes, aggregate_disk_counters, HasBoundedDeltas,
  aggregate_disk_counters-HasBoundedDeltas,
}
use server_status.Agent.Health.Merge.{is_raid_smart_type, first_non_empty}

program : Unit {0}
unfolding of_nat ◌<F◌ ◌≤F◌ absolute_zero parse_uint text_eq trim_space trim_left trim_right is_space
    has_prefix byte_len contains contains_text to_lower storage_health_from_smart scsi_errors assess
    measured smart_uint add_scsi is_raid_smart_type first_non_empty
program = tt

abbrev drive : SmartDevice
drive = record {
  name = codes "/dev/sda";
  info_name = [];
  type = codes "sat";
  protocol = codes "ATA";
}

-- A drive that passes, with one pending sector.
abbrev document : SmartctlDocument
document = record {
  exit_status = pos 0;
  device = drive;
  model_family = [];
  model_name = codes "disk";
  serial_number = codes "s1";
  firmware = [];
  scsi_vendor = [];
  scsi_product = [];
  scsi_model_name = [];
  logical_unit_id = [];
  rotation_rate = some 7200;
  user_capacity_bytes = codes "1000";
  smart_available = true;
  smart_enabled = true;
  smart_passed = some true;
  current_temperature = some (of_nat 40);
  drive_trip_temperature = none;
  power_on_hours = codes "12";
  ata_attributes =
      (record {
        id = pos 197;
        name = [];
        value = codes "100";
        worst = [];
        threshold = [];
        when_failed = [];
        raw_value = codes "1";
      })
      ∷ [];
  ata_error_count = codes "0";
  nvme_health = record {
    critical_warning = [];
    temperature = none;
    percentage_used = none;
    media_errors = [];
    error_log_entries = [];
    power_on_hours = [];
  };
  scsi_error_log = record { read = codes "1"; write = []; verify = codes "2" };
}

fits : FitsOption (scsi_errors document.scsi_error_log)
unfolding program
fits = omega arith

warm : IsTemperatureOption (storage_health_from_smart (codes "s1") document).temperature_celsius
unfolding program
warm = (refl, refl)

storage_health_from_smart-accepted_example :
    check_storage_health (codes "s1" ∷ []) (storage_health_from_smart (codes "s1") document) ≡ none
storage_health_from_smart-accepted_example =
    storage_health_from_smart-accepted (codes "s1" ∷ []) (codes "s1") document mem-cons_self warm tt
      fits

storage_health_from_smart-healthy_iff_example :
    ((storage_health_from_smart (codes "s1") document).risk_level ≡ codes "healthy") ↔ (
      ((storage_health_from_smart (codes "s1") document).smart_status ≡ codes "passed")
      × ((storage_health_from_smart (codes "s1") document).risk_reasons ≡ []))
storage_health_from_smart-healthy_iff_example =
    storage_health_from_smart-healthy_iff (codes "s1") document

parse_smart_scan-IsUsableScan_example : IsUsableScan (parse_smart_scan (some (drive ∷ drive ∷ [])))
parse_smart_scan-IsUsableScan_example = parse_smart_scan-IsUsableScan (some (drive ∷ drive ∷ []))

raid : is_raid_smart_type (codes " SAT+MegaRAID,3 ") ≡ true
unfolding program
raid = refl

abbrev counters_at : ℕ → List (Text × DiskCounters)
counters_at n =
    (codes "sda", record { read_bytes = n; write_bytes = n + 1; read_count = 1; write_count = 1 })
    ∷ []

few_bytes : all_bytes (codes "sda" ∷ []) (counters_at 10) < 2 ^ 64
unfolding program all_bytes get
few_bytes = omega arith

aggregate_disk_counters-HasBoundedDeltas_example :
    HasBoundedDeltas (aggregate_disk_counters (counters_at 4) (codes "sda" ∷ []) (counters_at 10)).0
aggregate_disk_counters-HasBoundedDeltas_example =
    aggregate_disk_counters-HasBoundedDeltas (counters_at 4) (codes "sda" ∷ []) (counters_at 10)
      few_bytes
