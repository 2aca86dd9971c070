-- ===== src/Agent/Health/Valid.antt =====
-- The health that the agent reads from smartctl meets what the server checks of it.
use mathlib.Core.List.{Perm, Mem, Mem-prop, Nodup, mem-cons_self, mem-cons_of_mem, Subset}
use mathlib.Core.List.Perm
use server_status.Base.{
  ℕ, ltb, if◌then◌else◌, List, [], ◌∷◌, map, Bool, true, false, Option, none, some, ◌≡◌, refl, inl,
  inr, arith, Bool-cases, All, All-Mem, length-le_of_subset,
}
use server_status.Base.Distinct.{for_distinct}
use server_status.Base.Decimal.{parse_uint}
use server_status.Base.Float.{Float}
use server_status.Base.Int.{pos, eqb_ℤ}
use server_status.Base.Sort.{sort_by-perm}
use server_status.Base.Text.{Text, codes, trim_space, contains_iff, contains, text_eq}
use server_status.Report.Bigint.{FitsOption, max_int64}
use server_status.Report.Types.{StorageHealth}
use server_status.Report.Measurements.Rules.{
  risk_reasons, smart_statuses, risk_levels, check_storage_health, check_reasons,
}
use server_status.Report.Measurements.Valid.{
  IsTemperatureOption, IsWithinOption, check_storage_health_iff, check_reasons_iff,
  IsValidHealthState, AreValidHealthCounters,
}
use server_status.Agent.Health.Types.{SmartctlDocument, SmartAtaAttribute}
use server_status.Agent.Health.Risk.{
  add_reasons-chosen, chosen, reason_of, Nodup-chosen, All-chosen,
}
use server_status.Agent.Health.Storage.{
  smart_uint, overwrite, AtaCounters, no_counters, set_attribute, set_attributes, scsi_errors,
  measured, smart_status_of, risk_rules, level, no_risk, assess, storage_health_from_smart,
}

-- A number that smartUint returns fits a bigint.
pub smart_uint-Fits : (value : Text) → FitsOption (smart_uint value)
unfolding smart_uint
smart_uint-Fits value = from (parse_uint (trim_space value))
  where
    from :
        (o : Option ℕ)
        → FitsOption (elim o [
          | none ↦ none
          | some parsed ↦ if ltb max_int64 parsed then none else some parsed
        ])
    from none = tt
    from (some n) = elim (Bool-cases (ltb max_int64 n)) [
      | inl h ↦ rw h tt
      | inr h ↦ rw h (ground (arith, h))
    ]

overwrite-Fits : (a b : Option ℕ) → FitsOption a → FitsOption b → FitsOption (overwrite a b)
overwrite-Fits a none h k = h
overwrite-Fits a (some n) h k = k

record HaveFitting (c : AtaCounters) : Type 0 where
  rates : FitsOption c.read_error_rate_normalized × FitsOption c.read_error_rate_raw
  sectors :
      FitsOption c.reallocated_sectors
      × FitsOption c.pending_sectors
      × FitsOption c.uncorrectable_sectors

set_attribute-HaveFitting :
    (c : AtaCounters) (a : SmartAtaAttribute) → HaveFitting c → HaveFitting (set_attribute c a)
unfolding set_attribute
set_attribute-HaveFitting c a h =
    let raw = smart_uint-Fits a.raw_value in
    let value = smart_uint-Fits a.value in
    let (reallocated, pending, uncorrectable) = h.sectors in
    elim (Bool-cases (eqb_ℤ a.id (pos 1))) [
      | inl e ↦ rw e (record { rates = (value, raw); sectors = h.sectors })
      | inr e ↦ elim (Bool-cases (eqb_ℤ a.id (pos 5))) [
        | inl f ↦ rw (e, f) (record { rates = h.rates; sectors = (raw, pending, uncorrectable) })
        | inr f ↦ elim (Bool-cases (eqb_ℤ a.id (pos 197))) [
          | inl g ↦
              rw (e, f, g) (record { rates = h.rates; sectors = (reallocated, raw, uncorrectable) })
          | inr g ↦ elim (Bool-cases (eqb_ℤ a.id (pos 198))) [
            | inl k ↦
                rw (e, f, g, k) (record { rates = h.rates; sectors = (reallocated, pending, raw) })
            | inr k ↦ rw (e, f, g, k) h
          ]
        ]
      ]
    ]

set_attributes-HaveFitting :
    (c : AtaCounters) (attributes : List SmartAtaAttribute)
    → HaveFitting c
    → HaveFitting (set_attributes c attributes)
unfolding set_attributes
set_attributes-HaveFitting c [] h = h
set_attributes-HaveFitting c (a ∷ attributes) h =
    set_attributes-HaveFitting (set_attribute c a) attributes (set_attribute-HaveFitting c a h)

All-of_Mem : (P : Text → Type 0) (xs : List Text) → ((x : Text) → Mem x xs → P x) → All P xs
All-of_Mem P [] h = tt
All-of_Mem P (x ∷ xs) h = (h x mem-cons_self, All-of_Mem P xs (λ y m. h y (mem-cons_of_mem x m)))

known_names :
    (doc : SmartctlDocument) (metric : StorageHealth) (used : Option Float)
    → metric.percentage_used ≡ used
    → check_reasons [] (map reason_of (risk_rules doc metric)) ≡ none
unfolding risk_rules check_reasons for_distinct contains
known_names doc metric none e = rw e refl
known_names doc metric (some used) e = rw e refl

chosen_names :
    (doc : SmartctlDocument) (metric : StorageHealth)
    → All (λ r. Mem r risk_reasons) (chosen (risk_rules doc metric))
      × Nodup (chosen (risk_rules doc metric))
chosen_names doc metric =
    let (known, distinct) =
      (check_reasons_iff [] (map reason_of (risk_rules doc metric))).0
        (known_names doc metric metric.percentage_used refl) in
    (All-chosen _ (risk_rules doc metric) known, Nodup-chosen (risk_rules doc metric) distinct)

-- The reasons of an assessed metric are in order, and those of the rules that hold.
reasons-perm :
    (doc : SmartctlDocument) (metric : StorageHealth)
    → Perm (assess doc metric).risk_reasons (chosen (risk_rules doc metric))
unfolding assess
reasons-perm doc metric =
    rw (add_reasons-chosen (risk_rules doc metric) no_risk) (sort_by-perm (λ r. r) _)

assess-AreValidHealthCounters :
    (key : Text) (doc : SmartctlDocument)
    → FitsOption (scsi_errors doc.scsi_error_log)
    → AreValidHealthCounters (storage_health_from_smart key doc)
unfolding storage_health_from_smart assess measured
assess-AreValidHealthCounters key doc fits =
    let metric = measured key doc in
    let p = reasons-perm doc metric in
    let (known, distinct) = chosen_names doc metric in
    let ordered = Perm.nodup (Perm.symm p) distinct in
    let subset : Subset (assess doc metric).risk_reasons risk_reasons =
      λ x m. All-Mem (λ r. Mem r risk_reasons) (λ a. Mem-prop) _ known (Perm.subset p x m) in
    let few = length-le_of_subset ordered subset in
    let sectors =
      set_attributes-HaveFitting no_counters doc.ata_attributes
        (record { rates = (tt, tt); sectors = (tt, tt, tt) }) in
    record {
      few_reasons = omega (arith, few);
      reasons = All-of_Mem _ _ subset;
      distinct_reasons = ordered;
      hours =
          overwrite-Fits _ _ (smart_uint-Fits doc.power_on_hours)
            (smart_uint-Fits doc.nvme_health.power_on_hours);
      errors =
          overwrite-Fits _ _
            (overwrite-Fits _ _ (smart_uint-Fits doc.ata_error_count)
              (smart_uint-Fits doc.nvme_health.media_errors))
            fits;
      rate = sectors.rates;
      sectors = sectors.sectors;
    }

level-known :
    (critical warning : Bool) (status : Text) → Mem (level critical warning status) risk_levels
unfolding contains
level-known true warning status = (contains_iff risk_levels (codes "critical")).0 refl
level-known false true status = (contains_iff risk_levels (codes "warning")).0 refl
level-known false false status = elim (Bool-cases (text_eq status (codes "passed"))) [
  | inl h ↦ rw h ((contains_iff risk_levels (codes "healthy")).0 refl)
  | inr h ↦ rw h ((contains_iff risk_levels (codes "unknown")).0 refl)
]

status-known : (passed : Option Bool) → Mem (smart_status_of passed) smart_statuses
unfolding contains
status-known none = (contains_iff smart_statuses (codes "unknown")).0 refl
status-known (some true) = (contains_iff smart_statuses (codes "passed")).0 refl
status-known (some false) = (contains_iff smart_statuses (codes "failed")).0 refl

assess-IsValidHealthState :
    (known : List Text) (key : Text) (doc : SmartctlDocument)
    → Mem key known
    → IsTemperatureOption (storage_health_from_smart key doc).temperature_celsius
    → IsWithinOption 0 255 doc.nvme_health.percentage_used
    → IsValidHealthState known (storage_health_from_smart key doc)
unfolding storage_health_from_smart assess measured
assess-IsValidHealthState known key doc m t w = record {
  known_key = m;
  status = status-known doc.smart_passed;
  level = level-known _ _ _;
  temperature = t;
  wear = w;
}

-- The server accepts the health that the agent makes of a smartctl document of a known drive, where
-- its temperature and its wear are in range and its SCSI errors fit a bigint.
pub storage_health_from_smart-accepted :
    (known : List Text) (key : Text) (doc : SmartctlDocument)
    → Mem key known
    → IsTemperatureOption (storage_health_from_smart key doc).temperature_celsius
    → IsWithinOption 0 255 doc.nvme_health.percentage_used
    → FitsOption (scsi_errors doc.scsi_error_log)
    → check_storage_health known (storage_health_from_smart key doc) ≡ none
storage_health_from_smart-accepted known key doc m t w fits =
    (check_storage_health_iff known (storage_health_from_smart key doc)).1 (record {
      state = assess-IsValidHealthState known key doc m t w;
      counters = assess-AreValidHealthCounters key doc fits;
    })
