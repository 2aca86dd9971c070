-- ===== src/Agent/Health/Storage.antt =====
-- storageHealthFromSMART of health.go, and the numbers that it reads.
use server_status.Base.{
  ℕ, ◌+◌, ◌-◌, ◌/◌, ◌%◌, ◌^◌, List, [], ◌∷◌, Bool, true, false, ◌&&◌, ◌||◌, Option, none, some,
  if◌then◌else◌, ltb, leb, ◌==◌,
}
use server_status.Base.Decimal.{parse_uint}
use server_status.Base.Float.{Float, of_nat, ◌<F◌, ◌≤F◌}
use server_status.Base.Int.{ℤ, pos, negsuc, eqb_ℤ}
use server_status.Base.Sort.{sort_by}
use server_status.Base.Text.{Text, codes, trim_space, text_eq}
use server_status.Report.Bigint.{max_int64}
use server_status.Report.Types.{StorageHealth}
use server_status.Agent.Health.Types.{SmartctlDocument, SmartAtaAttribute, ScsiErrorLog}
use server_status.Agent.Health.Risk.{Rule, Risk, add_reasons}

-- The number of a text, where it fits a PostgreSQL bigint; the empty text has none.
unfoldable pub smart_uint : Text → Option ℕ
smart_uint value = elim (parse_uint (trim_space value)) [
  | none ↦ none
  | some parsed ↦ if ltb max_int64 parsed then none else some parsed
]

unfoldable pub non_zero : Option ℕ → Bool
non_zero none = false
non_zero (some value) = ltb 0 value

-- The bits of an int, and `status & 2^k != 0`.
abbrev unsigned : ℤ → ℕ
unsigned (pos n) = n
unsigned (negsuc n) = 2 ^ 64 - (n + 1)

unfoldable pub has_bit : ℕ → ℤ → Bool
has_bit k status = ((unsigned status / 2 ^ k) % 2) == 1

-- `value`, or `before` where there is none.
abbrev pub overwrite {ℓ} : {A : Type ℓ} → Option A → Option A → Option A
overwrite before none = before
overwrite before (some value) = some value

-- The loop over the counters of the SCSI log: scsiErrors, and hasSCSIErrors as an Option. A counter
-- that would exceed a uint64 is left out of the sum.
unfoldable pub add_scsi : Option ℕ → List Text → Option ℕ
unfolding smart_uint
add_scsi total [] = total
add_scsi total (counter ∷ counters) = add_scsi (plus total (smart_uint counter)) counters
  where
    sum : ℕ → ℕ → ℕ
    sum a b = if leb b (2 ^ 64 - 1 - a) then a + b else a

    plus : Option ℕ → Option ℕ → Option ℕ
    plus total none = total
    plus none (some value) = some (sum 0 value)
    plus (some a) (some value) = some (sum a value)

unfoldable pub scsi_errors : ScsiErrorLog → Option ℕ
scsi_errors log = add_scsi none (log.read ∷ log.write ∷ log.verify ∷ [])

-- The attributes that the loop over the ATA table sets, by their identifiers.
pub record AtaCounters : Type 0 where
  pub read_error_rate_normalized : Option ℕ
  pub read_error_rate_raw : Option ℕ
  pub reallocated_sectors : Option ℕ
  pub pending_sectors : Option ℕ
  pub uncorrectable_sectors : Option ℕ

abbrev pub no_counters : AtaCounters
no_counters = record {
  read_error_rate_normalized = none;
  read_error_rate_raw = none;
  reallocated_sectors = none;
  pending_sectors = none;
  uncorrectable_sectors = none;
}

unfoldable pub set_attribute : AtaCounters → SmartAtaAttribute → AtaCounters
set_attribute c attribute =
    let raw = smart_uint attribute.raw_value in
    if eqb_ℤ attribute.id (pos 1)
    then record c {
      read_error_rate_normalized = smart_uint attribute.value;
      read_error_rate_raw = raw;
    }
    else if eqb_ℤ attribute.id (pos 5)
    then record c { reallocated_sectors = raw }
    else if eqb_ℤ attribute.id (pos 197)
    then record c { pending_sectors = raw }
    else if eqb_ℤ attribute.id (pos 198)
    then record c { uncorrectable_sectors = raw }
    else c

unfoldable pub set_attributes : AtaCounters → List SmartAtaAttribute → AtaCounters
unfolding set_attribute
set_attributes c [] = c
set_attributes c (attribute ∷ attributes) = set_attributes (set_attribute c attribute) attributes

-- The status, "unknown" without one.
abbrev pub smart_status_of : Option Bool → Text
smart_status_of none = codes "unknown"
smart_status_of (some true) = codes "passed"
smart_status_of (some false) = codes "failed"

-- The metric before its risk is found.
unfoldable pub measured : Text → SmartctlDocument → StorageHealth
unfolding set_attributes
measured block_device_key doc =
    let counters = set_attributes no_counters doc.ata_attributes in
    record {
      block_device_key = block_device_key;
      smart_available = doc.smart_available;
      smart_enabled = doc.smart_enabled;
      smart_status = smart_status_of doc.smart_passed;
      risk_level = codes "unknown";
      risk_reasons = [];
      temperature_celsius = overwrite doc.current_temperature doc.nvme_health.temperature;
      power_on_hours =
          overwrite (smart_uint doc.power_on_hours) (smart_uint doc.nvme_health.power_on_hours);
      error_count =
          overwrite
            (overwrite (smart_uint doc.ata_error_count) (smart_uint doc.nvme_health.media_errors))
            (scsi_errors doc.scsi_error_log);
      read_error_rate_normalized = counters.read_error_rate_normalized;
      read_error_rate_raw = counters.read_error_rate_raw;
      reallocated_sectors = counters.reallocated_sectors;
      pending_sectors = counters.pending_sectors;
      uncorrectable_sectors = counters.uncorrectable_sectors;
      percentage_used = doc.nvme_health.percentage_used;
    }

-- The two calls under `if metric.PercentageUsed != nil`.
abbrev pub wear_rules : Option Float → List Rule
wear_rules none = []
wear_rules (some used) =
    (record {
      condition = of_nat 100 ≤F used;
      critical_reason = true;
      reason = codes "wear_exhausted";
    })
    ∷ (record {
      condition = (of_nat 90 ≤F used) && (used <F of_nat 100);
      critical_reason = false;
      reason = codes "wear_high";
    })
    ∷ []

abbrev pub rule : Bool → Bool → Text → Rule
rule condition critical_reason reason = record {
  condition = condition;
  critical_reason = critical_reason;
  reason = reason;
}

-- The calls of addReason.
unfoldable pub risk_rules : SmartctlDocument → StorageHealth → List Rule
risk_rules doc metric =
    rule (text_eq metric.smart_status (codes "failed") || has_bit 3 doc.exit_status) true
      (codes "smart_failed")
    ∷ rule (has_bit 4 doc.exit_status) true (codes "prefail_attribute")
    ∷ rule (non_zero (smart_uint doc.nvme_health.critical_warning)) true
        (codes "nvme_critical_warning")
    ∷ rule (non_zero metric.pending_sectors) true (codes "pending_sectors")
    ∷ rule (non_zero metric.uncorrectable_sectors) true (codes "uncorrectable_sectors")
    ∷ rule (non_zero metric.reallocated_sectors) false (codes "reallocated_sectors")
    ∷ rule (non_zero metric.error_count) false (codes "device_errors")
    ∷ rule (has_bit 5 doc.exit_status) false (codes "age_attribute")
    ∷ rule (has_bit 6 doc.exit_status) false (codes "device_error_log")
    ∷ rule (has_bit 7 doc.exit_status) false (codes "self_test_errors")
    ∷ wear_rules metric.percentage_used

-- The switch that sets the level.
abbrev pub level : Bool → Bool → Text → Text
level true warning status = codes "critical"
level false true status = codes "warning"
level false false status =
    if text_eq status (codes "passed") then codes "healthy" else codes "unknown"

abbrev pub no_risk : Risk
no_risk = record { risk_reasons = []; critical = false; warning = false }

-- The risk of a metric.
unfoldable pub assess : SmartctlDocument → StorageHealth → StorageHealth
assess doc metric =
    let risk = add_reasons no_risk (risk_rules doc metric) in
    record metric {
      risk_reasons = sort_by (λ reason. reason) risk.risk_reasons;
      risk_level = level risk.critical risk.warning metric.smart_status;
    }

unfoldable pub storage_health_from_smart : Text → SmartctlDocument → StorageHealth
storage_health_from_smart block_device_key doc = assess doc (measured block_device_key doc)
