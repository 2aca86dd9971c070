-- ===== src/Store/Snapshots.antt =====
-- The current temperatures and drive health of a node, which a report replaces as a whole unless they
-- are newer: replaceTemperatureMetrics and replaceStorageHealthMetrics of internal/store/ingest.go.
pub mod Latest
use server_status.Base.{
  ℕ, Bool, false, not, ◌&&◌, ◌||◌, List, [], ◌∷◌, ◌++◌, map, Option, none, some, if◌then◌else◌,
}
use server_status.Base.Float.{Float}
use server_status.Base.Int.{ℤ, to_int64, ltb_ℤ}
use server_status.Base.Text.{Text, text_eq}
use server_status.Report.Types.{TemperatureMetrics, StorageHealth}
use server_status.Store.Table.{Time}
use server_status.Store.Transaction.{
  Statement, check_storage_health, delete_storage_health, insert_storage_health, Result, stored,
  execute, insert_each, invalid_block_device,
}
use server_status.Store.Samples.{Stamp}

-- A row of monitoring.temperature_current_metrics or of monitoring.storage_health_current_metrics.
pub record Current (C : Type 0) : Type 0 where
  pub stamp : Stamp
  pub columns : C

module _ {C : Type 0} where
  -- A row of the node whose bucket is after `bucket_at`.
  unfoldable pub has_newer : Text → Time → List (Current C) → Bool
  has_newer node bucket_at [] = false
  has_newer node bucket_at (row ∷ rows) =
      (text_eq row.stamp.node_id node && ltb_ℤ bucket_at row.stamp.bucket_at)
      || has_newer node bucket_at rows

  -- `SELECT NOT EXISTS (…)`
  unfoldable pub current_snapshot_can_be_replaced : Text → Time → List (Current C) → Bool
  unfolding has_newer
  current_snapshot_can_be_replaced node bucket_at rows = not (has_newer node bucket_at rows)

  -- `DELETE … WHERE node_id = $1`
  unfoldable pub delete_current : Text → List (Current C) → List (Current C)
  delete_current node [] = []
  delete_current node (row ∷ rows) =
      let rest = delete_current node rows in
      if text_eq row.stamp.node_id node then rest else row ∷ rest

pub record TemperatureColumns : Type 0 where
  pub sensor_key : Text
  pub component : Text
  pub label : Text
  pub temperature_celsius : Float
  pub high_celsius : Option Float
  pub critical_celsius : Option Float

abbrev pub temperature_row : Stamp → TemperatureMetrics → Current TemperatureColumns
temperature_row stamp metric = record {
  stamp = stamp;
  columns = record {
    sensor_key = metric.key;
    component = metric.component;
    label = metric.label;
    temperature_celsius = metric.temperature_celsius;
    high_celsius = metric.high_celsius;
    critical_celsius = metric.critical_celsius;
  };
}

unfoldable pub replace_temperature_metrics :
    Stamp
    → List TemperatureMetrics
    → List (Current TemperatureColumns)
    → List (Current TemperatureColumns)
unfolding current_snapshot_can_be_replaced delete_current
replace_temperature_metrics stamp metrics rows =
    if current_snapshot_can_be_replaced stamp.node_id stamp.bucket_at rows
    then delete_current stamp.node_id rows ++ map (temperature_row stamp) metrics
    else rows

pub record StorageHealthColumns : Type 0 where
  pub block_device_id : Text
  pub smart_available : Bool
  pub smart_enabled : Bool
  pub smart_status : Text
  pub risk_level : Text
  pub risk_reasons : List Text
  pub temperature_celsius : Option Float
  pub power_on_hours : Option ℤ
  pub error_count : Option ℤ
  pub read_error_rate_normalized : Option ℤ
  pub read_error_rate_raw : Option ℤ
  pub reallocated_sectors : Option ℤ
  pub pending_sectors : Option ℤ
  pub uncorrectable_sectors : Option ℤ
  pub percentage_used : Option Float

unfoldable pub nullable_i64 : Option ℕ → Option ℤ
nullable_i64 none = none
nullable_i64 (some value) = some (to_int64 value)

unfoldable pub storage_health_row : Stamp → Text → StorageHealth → Current StorageHealthColumns
unfolding nullable_i64
storage_health_row stamp id metric = record {
  stamp = stamp;
  columns = record {
    block_device_id = id;
    smart_available = metric.smart_available;
    smart_enabled = metric.smart_enabled;
    smart_status = metric.smart_status;
    risk_level = metric.risk_level;
    risk_reasons = metric.risk_reasons;
    temperature_celsius = metric.temperature_celsius;
    power_on_hours = nullable_i64 metric.power_on_hours;
    error_count = nullable_i64 metric.error_count;
    read_error_rate_normalized = nullable_i64 metric.read_error_rate_normalized;
    read_error_rate_raw = nullable_i64 metric.read_error_rate_raw;
    reallocated_sectors = nullable_i64 metric.reallocated_sectors;
    pending_sectors = nullable_i64 metric.pending_sectors;
    uncorrectable_sectors = nullable_i64 metric.uncorrectable_sectors;
    percentage_used = metric.percentage_used;
  };
}

abbrev pub health_key : StorageHealth → Text
health_key metric = metric.block_device_key

unfoldable pub replace_storage_health_metrics :
    (Statement → Bool)
    → Stamp
    → List (Text × Text)
    → List StorageHealth
    → List (Current StorageHealthColumns)
    → Result (List (Current StorageHealthColumns))
unfolding current_snapshot_can_be_replaced delete_current execute insert_each
replace_storage_health_metrics accepts stamp ids metrics rows =
    execute accepts check_storage_health (
      if current_snapshot_can_be_replaced stamp.node_id stamp.bucket_at rows
      then execute accepts delete_storage_health (
          insert_each accepts health_key invalid_block_device insert_storage_health
            (storage_health_row stamp) ids metrics (delete_current stamp.node_id rows))
      else stored rows)
