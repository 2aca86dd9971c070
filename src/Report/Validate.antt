-- ===== src/Report/Validate.antt =====
-- Validate of internal/report/validate.go. Times are nanoseconds; `now.Add` of five minutes or a day
-- does not leave the range of times. InventoryFingerprint sorts the slices that the report shares
-- with its argument, so the report comes back beside the error.
use server_status.Base.{
  ◌-◌, ◌*◌, true, false, not, ◌&&◌, ◌||◌, List, [], ◌∷◌, Option, none, some, ◌≡◌, ◌≢◌, ◌↔◌, ◌⊎◌,
  arith,
}
use server_status.Base.Check.{◌>>◌, reject}
use server_status.Base.Float.{of_nat, ◌<F◌}
use server_status.Base.Int.{ℤ, pos, negsuc, ltb_ℤ, eqb_ℤ, ◌+ℤ◌, ◌≤ℤ◌}
use server_status.Base.Text.{
  Text, codes, text_eq, text_eq_iff, is_empty, is_blank, contains, is_empty-false_iff, is_empty_iff,
  trim_space,
}
use server_status.Report.Types.{Report, AgentInfo, Time}
use server_status.Report.Error.{
  ValidationError, unsupported_version, invalid_agent_id, missing_agent_fields,
  invalid_machine_type, invalid_primary_ip, collected_at_required, collected_at_in_future,
  collected_at_too_old, invalid_interval, invalid_cpu_usage, negative_load, fingerprint_failed,
  fingerprint_mismatch,
}
use server_status.Report.Hardware.Check.{
  validate_inventory, validate_inventory_iff, IsValidInventory,
}
use server_status.Report.Measurements.Check.{
  validate_metrics, validate_metrics_iff, AreValidMetrics,
}
use server_status.Report.Measurements.Valid.{IsWithin}
use server_status.Report.Normalize.{normalize_inventory, inventory_fingerprint}
use server_status.Report.Platform.{Platform}
use server_status.Report.Uuid.{valid_uuid}

abbrev pub five_minutes : ℤ
five_minutes = pos (5 * 60 * 1_000_000_000)

-- -24 hours
abbrev pub day_before : ℤ
day_before = negsuc (24 * 60 * 60 * 1_000_000_000 - 1)

abbrev pub machine_types : List Text
machine_types = codes "" ∷ codes "physical" ∷ codes "virtual" ∷ []

unfoldable pub check_agent : Platform → AgentInfo → Option ValidationError
check_agent p agent =
    reject (not (valid_uuid agent.id)) invalid_agent_id
    >> reject
        (is_blank agent.hostname
          || is_blank agent.os_name
          || is_blank agent.architecture
          || is_blank agent.agent_version)
        missing_agent_fields
    >> reject (not (contains machine_types agent.machine_type)) invalid_machine_type
    >> reject (not (is_empty agent.primary_ip) && not (p.is_ip agent.primary_ip)) invalid_primary_ip

unfoldable pub check_times : Time → Report → Option ValidationError
check_times now r =
    reject (eqb_ℤ r.collected_at (pos 0)) collected_at_required
    >> reject (ltb_ℤ (now +ℤ five_minutes) r.collected_at) collected_at_in_future
    >> reject (ltb_ℤ r.collected_at (now +ℤ day_before)) collected_at_too_old
    >> reject (ltb_ℤ r.interval_seconds (pos 1) || ltb_ℤ (pos 3600) r.interval_seconds)
        invalid_interval

unfoldable pub check_cpu : Report → Option ValidationError
check_cpu r =
    reject
      ((r.metrics.cpu.usage_percent <F of_nat 0) || (of_nat 100 <F r.metrics.cpu.usage_percent))
      invalid_cpu_usage
    >> reject
        ((r.metrics.cpu.load_1 <F of_nat 0)
          || (r.metrics.cpu.load_5 <F of_nat 0)
          || (r.metrics.cpu.load_15 <F of_nat 0))
        negative_load

-- Everything above the fingerprint.
unfoldable pub check_report : Platform → Time → Report → Option ValidationError
check_report p now r =
    reject (not (eqb_ℤ r.version (pos 1))) (unsupported_version r.version)
    >> check_agent p r.agent
    >> check_times now r
    >> check_cpu r
    >> validate_inventory p.is_cidr r.inventory
    >> validate_metrics r.inventory r.metrics

unfoldable pub check_fingerprint : Report → Option Text → Option ValidationError
check_fingerprint r none = some fingerprint_failed
check_fingerprint r (some fingerprint) =
    reject (not (text_eq r.inventory_fingerprint fingerprint)) fingerprint_mismatch

-- The error, and the report as the caller sees it afterwards.
unfoldable pub validate : Platform → Time → Report → Option ValidationError × Report
validate p now r = elim (check_report p now r) [
  | some e ↦ (some e, r)
  | none ↦ (
    check_fingerprint r (inventory_fingerprint p r.inventory),
    record r { inventory = normalize_inventory r.inventory },
  )
]

pub record IsValidAgent (p : Platform) (agent : AgentInfo) : Type 0 where
  pub id : valid_uuid agent.id ≡ true
  pub hostname : trim_space agent.hostname ≢ []
  pub os_name : trim_space agent.os_name ≢ []
  pub architecture : trim_space agent.architecture ≢ []
  pub agent_version : trim_space agent.agent_version ≢ []
  pub machine_type :
      (agent.machine_type ≡ [])
      ⊎ (agent.machine_type ≡ codes "physical")
      ⊎ (agent.machine_type ≡ codes "virtual")
  pub primary_ip : (agent.primary_ip ≡ []) ⊎ (p.is_ip agent.primary_ip ≡ true)

-- Collected at most five minutes ahead and at most a day ago.
pub record IsTimely (now : Time) (r : Report) : Type 0 where
  pub set : r.collected_at ≢ pos 0
  pub not_ahead : r.collected_at ≤ℤ now +ℤ five_minutes
  pub not_old : now +ℤ day_before ≤ℤ r.collected_at
  pub interval : (pos 1 ≤ℤ r.interval_seconds) × (r.interval_seconds ≤ℤ pos 3600)

pub record IsValidReport (p : Platform) (now : Time) (r : Report) : Type 0 where
  pub version : r.version ≡ pos 1
  pub agent : IsValidAgent p r.agent
  pub timely : IsTimely now r
  pub usage : IsWithin 0 100 r.metrics.cpu.usage_percent
  pub load_1 : (r.metrics.cpu.load_1 <F of_nat 0) ≡ false
  pub load_5 : (r.metrics.cpu.load_5 <F of_nat 0) ≡ false
  pub load_15 : (r.metrics.cpu.load_15 <F of_nat 0) ≡ false
  pub inventory : IsValidInventory p.is_cidr r.inventory
  pub metrics : AreValidMetrics r.inventory r.metrics
  pub fingerprint : inventory_fingerprint p r.inventory ≡ some r.inventory_fingerprint

check_agent_iff :
    (p : Platform) (agent : AgentInfo) → (check_agent p agent ≡ none) ↔ IsValidAgent p agent
unfolding check_agent contains
check_agent_iff p agent = ground (
  arith,
  is_empty-false_iff (trim_space agent.hostname),
  is_empty-false_iff (trim_space agent.os_name),
  is_empty-false_iff (trim_space agent.architecture),
  is_empty-false_iff (trim_space agent.agent_version),
  is_empty_iff agent.primary_ip,
  text_eq_iff (codes "") agent.machine_type,
  text_eq_iff (codes "physical") agent.machine_type,
  text_eq_iff (codes "virtual") agent.machine_type,
)

check_times_iff : (now : Time) (r : Report) → (check_times now r ≡ none) ↔ IsTimely now r
unfolding check_times
check_times_iff now r = ground arith

-- The report but for its fingerprint.
check_report_iff :
    (p : Platform) (now : Time) (r : Report)
    → (check_report p now r ≡ none) ↔ (
        (r.version ≡ pos 1)
        × IsValidAgent p r.agent
        × IsTimely now r
        × IsWithin 0 100 r.metrics.cpu.usage_percent
        × ((r.metrics.cpu.load_1 <F of_nat 0) ≡ false)
        × ((r.metrics.cpu.load_5 <F of_nat 0) ≡ false)
        × ((r.metrics.cpu.load_15 <F of_nat 0) ≡ false)
        × IsValidInventory p.is_cidr r.inventory
        × AreValidMetrics r.inventory r.metrics)
unfolding check_report check_cpu
check_report_iff p now r = ground (
  arith,
  check_agent_iff p r.agent,
  check_times_iff now r,
  validate_inventory_iff p.is_cidr r.inventory,
  validate_metrics_iff r.inventory r.metrics,
)

check_fingerprint_iff :
    (r : Report) (o : Option Text)
    → (check_fingerprint r o ≡ none) ↔ (o ≡ some r.inventory_fingerprint)
unfolding check_fingerprint
check_fingerprint_iff r none = ground arith
check_fingerprint_iff r (some f) = ground (arith, text_eq_iff r.inventory_fingerprint f)

-- Validate returns no error exactly on the valid reports.
pub validate_iff :
    (p : Platform) (now : Time) (r : Report) → ((validate p now r).0 ≡ none) ↔ IsValidReport p now r
unfolding validate
validate_iff p now r =
    ground (
      arith,
      check_report_iff p now r,
      check_fingerprint_iff r (inventory_fingerprint p r.inventory),
    )
