-- ===== src/Report/Bounds.antt =====
-- What follows for the store from an accepted report: how many metrics it has, and that the values
-- it stores as PostgreSQL bigints keep their value.
use mathlib.Core.List.{Mem, Subset, eq-or-mem_of_mem-cons, not-mem-nil, Mem-prop}
use mathlib.Core.Logic.Or
use server_status.Base.{
  ◌≤◌, List, [], ◌∷◌, map, none, ◌≡◌, ◌⊎◌, All, arith, length, length-le_of_subset, length-map,
}
use server_status.Base.Int.{pos, ◌+ℤ◌, IsInt64, add_int64_nonneg}
use server_status.Base.Text.{Text}
use server_status.Report.Inventory.{CpuPackage, Filesystem, NetworkInterface, BlockDevice}
use server_status.Report.Types.{Report, Time}
use server_status.Report.Keys.{Nodup-of_HasUniqueKeys}
use server_status.Report.Hardware.Check.{AreValidItems}
use server_status.Report.Hardware.Valid.{check_cpu_package_iff}
use server_status.Report.Hardware.Rules.{check_cpu_package}
use server_status.Report.Measurements.Check.{filesystem_keys, interface_keys, block_device_keys}
use server_status.Report.Platform.{Platform}
use server_status.Report.Validate.{validate, validate_iff}

-- Metrics with different keys that all name known keys are no more than the keys.
module _ {A : Type 0} (key : A → Text) (known : List Text) (P : A → Type 0)
    (knows : (x : A) → P x → Mem (key x) known) where
  keys-subset : (items : List A) → All P items → Subset (map key items) known
  keys-subset [] h k m = absurd (not-mem-nil m)
  keys-subset (x ∷ items) h k m =
      Or.elim Mem-prop (eq-or-mem_of_mem-cons m) (λ e. rw e (knows x h.0)) (keys-subset items h.1 k)

  metrics-le : (items : List A) → AreValidItems key P items → length items ≤ length known
  metrics-le items v = rw (length-map key items) at (
      length-le_of_subset (Nodup-of_HasUniqueKeys (map key items) v.keys)
        (keys-subset items v.valid))

-- An accepted report has at most as many filesystem metrics as filesystems, network metrics as
-- interfaces, and storage health entries as block devices.
pub metrics_bounded :
    (p : Platform) (now : Time) (r : Report)
    → (validate p now r).0 ≡ none
    → (length r.metrics.filesystems ≤ length r.inventory.filesystems)
      × (length r.metrics.network ≤ length r.inventory.network_interfaces)
      × (length r.metrics.storage_health ≤ length r.inventory.block_devices)
metrics_bounded p now r h =
    let v = (validate_iff p now r).0 h in
    (
      rw (length-map (λ (i : Filesystem). i.key) r.inventory.filesystems) at (
          metrics-le _ (filesystem_keys r.inventory) _ (λ x m. m.known_key) r.metrics.filesystems
            v.metrics.filesystems),
      rw (length-map (λ (i : NetworkInterface). i.key) r.inventory.network_interfaces) at (
          metrics-le _ (interface_keys r.inventory) _ (λ x m. m.known_key) r.metrics.network
            v.metrics.network),
      rw (length-map (λ (i : BlockDevice). i.key) r.inventory.block_devices) at (
          metrics-le _ (block_device_keys r.inventory) _ (λ x m. m.state.known_key)
            r.metrics.storage_health v.metrics.storage_health),
    )

-- An accepted package of machine integers has no classified cores, or as many as physical ones,
-- counted without overflow.
pub classified_cores_exact :
    (item : CpuPackage)
    → IsInt64 item.physical_cores
    → IsInt64 item.performance_cores
    → IsInt64 item.efficiency_cores
    → check_cpu_package item ≡ none
    → (item.performance_cores +ℤ item.efficiency_cores ≡ pos 0)
      ⊎ (item.performance_cores +ℤ item.efficiency_cores ≡ item.physical_cores)
classified_cores_exact item hp hf he h =
    let v = (check_cpu_package_iff item).0 h in
    ground (arith, v, add_int64_nonneg item.performance_cores item.efficiency_cores hf he)
