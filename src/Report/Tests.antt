-- ===== src/Report/Tests.antt =====
-- Runs of internal/report, and the theorems at a concrete report.
use mathlib.Core.List.{Nodup-nil, not-mem-nil}
use mathlib.Core.List.Perm
use mathlib.Core.List.Pairwise
use server_status.Base.{◌≤◌, List, [], ◌∷◌, none, ◌≡◌, refl, ◌↔◌, ◌⊎◌, arith, length}
use server_status.Base.Int.{pos, ◌+ℤ◌}
use server_status.Base.Text.{Text, codes}
use server_status.Report.Keys.{unique_keys, unique_keys_iff, Nodup-of_HasUniqueKeys}
use server_status.Report.Hardware.Rules.{check_cpu_package}
use server_status.Report.Hardware.Check.{
  validate_inventory, validate_inventory_iff, IsValidInventory,
}
use server_status.Report.Measurements.Check.{
  validate_metrics, validate_metrics_iff, AreValidMetrics,
}
use server_status.Report.Normalize.{
  inventory_fingerprint, SameResources, HasDistinctKeys, inventory_fingerprint_canonical,
}
use server_status.Report.Validate.{validate, validate_iff, IsValidReport}
use server_status.Report.Bounds.{metrics_bounded, classified_cores_exact}
use server_status.Report.Sample.{
  program, toy, cpu_package_0, filesystem, hardware, noon, sample, accepted,
}

validate_iff_example : ((validate toy noon sample).0 ≡ none) ↔ IsValidReport toy noon sample
validate_iff_example = validate_iff toy noon sample

metrics_bounded_example : (1 ≤ length sample.inventory.filesystems) × (0 ≤ 0) × (0 ≤ 0)
metrics_bounded_example = metrics_bounded toy noon sample accepted

package_accepted : check_cpu_package cpu_package_0 ≡ none
unfolding program
package_accepted = refl

classified_cores_exact_example :
    (cpu_package_0.performance_cores +ℤ cpu_package_0.efficiency_cores ≡ pos 0)
    ⊎ (cpu_package_0.performance_cores +ℤ cpu_package_0.efficiency_cores
        ≡ cpu_package_0.physical_cores)
classified_cores_exact_example =
    classified_cores_exact cpu_package_0 (omega arith) (omega arith) (omega arith) package_accepted

abbrev two_keys : List Text
two_keys = codes "b" ∷ codes "a" ∷ []

two_keys_pass : unique_keys [] two_keys ≡ none
unfolding program
two_keys_pass = refl

distinct : HasDistinctKeys (hardware (codes "b") (codes "a"))
distinct = record {
  cpu_packages = Pairwise.cons (λ x m. absurd (not-mem-nil m)) Nodup-nil;
  memory_modules = Nodup-nil;
  block_devices = Nodup-nil;
  filesystems = Nodup-of_HasUniqueKeys two_keys ((unique_keys_iff [] two_keys).0 two_keys_pass);
  network_interfaces = Nodup-nil;
  gpus = Nodup-nil;
}

swapped : SameResources (hardware (codes "b") (codes "a")) (hardware (codes "a") (codes "b"))
swapped = record {
  cpu_packages = Perm.refl _;
  memory_modules = Perm.refl _;
  block_devices = Perm.refl _;
  filesystems = Perm.swap (filesystem (codes "a")) (filesystem (codes "b")) [];
  network_interfaces = Perm.refl _;
  gpus = Perm.refl _;
}

inventory_fingerprint_canonical_example :
    inventory_fingerprint toy (hardware (codes "b") (codes "a"))
    ≡ inventory_fingerprint toy (hardware (codes "a") (codes "b"))
inventory_fingerprint_canonical_example =
    inventory_fingerprint_canonical toy (hardware (codes "b") (codes "a"))
      (hardware (codes "a") (codes "b")) distinct swapped

validate_inventory_iff_example :
    (validate_inventory toy.is_cidr sample.inventory ≡ none)
    ↔ IsValidInventory toy.is_cidr sample.inventory
validate_inventory_iff_example = validate_inventory_iff toy.is_cidr sample.inventory

validate_metrics_iff_example :
    (validate_metrics sample.inventory sample.metrics ≡ none)
    ↔ AreValidMetrics sample.inventory sample.metrics
validate_metrics_iff_example = validate_metrics_iff sample.inventory sample.metrics
