-- ===== src/Report/Sample.antt =====
-- A report that internal/report/validate.go accepts, and a stand-in for the libraries it calls.
use mathlib.Core.List.{flatten}
use server_status.Base.{◌*◌, true, [], ◌∷◌, map, none, some, ◌≡◌, refl}
use server_status.Base.Check.{for_each}
use server_status.Base.Distinct.{for_distinct}
use server_status.Base.Float.{of_nat, absolute_zero, is_nan, is_inf, ◌<F◌, ◌≤F◌}
use server_status.Base.Int.{pos, add_int64, ◌+ℤ◌}
use server_status.Base.Sort.{sort_by}
use server_status.Base.Text.{
  Text, codes, trim_space, trim_left, trim_right, is_space, contains, text_eq, text_lt,
}
use server_status.Report.Inventory.{Inventory, CpuPackage, Filesystem}
use server_status.Report.Types.{Report, Time}
use server_status.Report.Platform.{Platform}
use server_status.Report.Uuid.{valid_uuid}
use server_status.Report.Bigint.{
  validate_unsigned_bigints, validate_optional_unsigned_bigints, validate_bigint,
  validate_optional_bigint,
}
use server_status.Report.Keys.{unique_keys}
use server_status.Report.Hardware.Rules.{rules as hardware_rules}
use server_status.Report.Hardware.Check.{check_sizes, check_items, validate_inventory}
use server_status.Report.Measurements.Rules.{rules as measurement_rules}
use server_status.Report.Measurements.Check.{validate_metrics}
use server_status.Report.Normalize.{
  normalize_inventory, inventory_fingerprint, sort_options, sort_addresses,
}
use server_status.Report.Validate.{
  validate, check_agent, check_times, check_cpu, check_report, check_fingerprint,
}

unfoldable pub program : Unit {0}
unfolding flatten for_each for_distinct of_nat absolute_zero is_nan is_inf ◌<F◌ ◌≤F◌ add_int64 ◌+ℤ◌
    sort_by trim_space trim_left trim_right is_space contains text_eq text_lt valid_uuid
    validate_unsigned_bigints validate_optional_unsigned_bigints validate_bigint
    validate_optional_bigint unique_keys hardware_rules check_sizes check_items validate_inventory
    measurement_rules validate_metrics normalize_inventory inventory_fingerprint sort_options
    sort_addresses validate check_agent check_times check_cpu check_report check_fingerprint
program = tt

-- A stand-in for net, json and sha256: the digest is the keys of the filesystems.
abbrev pub toy : Platform
toy = record {
  is_ip = λ s. true;
  is_cidr = λ s. true;
  marshal = λ i. some (flatten (map (λ (f : Filesystem). f.key) i.filesystems));
  sha256_hex = λ bytes. bytes;
}

abbrev pub cpu_package_0 : CpuPackage
cpu_package_0 = record {
  key = codes "cpu-cpu_package_0-0";
  package_index = pos 0;
  vendor = [];
  model_name = codes "unknown";
  physical_cores = pos 8;
  logical_threads = pos 12;
  performance_cores = pos 4;
  efficiency_cores = pos 4;
  max_frequency_mhz = of_nat 3200;
}

abbrev pub filesystem : Text → Filesystem
filesystem key = record {
  key = key;
  uuid = [];
  device_name = codes "/dev/sda1";
  filesystem_type = codes "ext4";
  mount_point = codes "/";
  mount_options = codes "rw" ∷ codes "relatime" ∷ [];
}

abbrev pub hardware : Text → Text → Inventory
hardware a b = record {
  cpu_packages = cpu_package_0 ∷ [];
  memory_modules = [];
  block_devices = [];
  filesystems = filesystem a ∷ filesystem b ∷ [];
  network_interfaces = [];
  gpus = [];
}

abbrev pub noon : Time
noon = pos (63_900_000_000 * 1_000_000_000)

abbrev pub sample : Report
sample = record {
  version = pos 1;
  collected_at = noon;
  interval_seconds = pos 60;
  inventory_fingerprint = codes "ab";
  agent = record {
    id = codes "6f9619ff-8b86-4d01-b42d-00cf4fc964ff";
    hostname = codes "node";
    os_name = codes "debian";
    os_version = [];
    kernel_version = [];
    architecture = codes "amd64";
    agent_version = codes "1.2.0";
    machine_type = codes "physical";
    system_model = [];
    primary_ip = [];
    labels = [];
  };
  inventory = hardware (codes "b") (codes "a");
  metrics = record {
    cpu = record {
      usage_percent = of_nat 12;
      load_1 = of_nat 0;
      load_5 = of_nat 0;
      load_15 = of_nat 0;
    };
    memory = record {
      total_bytes = 8;
      used_bytes = 4;
      available_bytes = 4;
      cached_bytes = 0;
      buffers_bytes = 0;
      swap_total_bytes = 0;
      swap_used_bytes = 0;
      uptime_seconds = 10;
    };
    disk = record {
      read_bytes_total = 0;
      write_bytes_total = 0;
      read_bytes_delta = 0;
      write_bytes_delta = 0;
      read_ops_delta = 0;
      write_ops_delta = 0;
    };
    filesystems =
        (record {
          filesystem_key = codes "a";
          total_bytes = 8;
          used_bytes = 4;
          available_bytes = 2;
          total_inodes = 0;
          used_inodes = 0;
        })
        ∷ [];
    network = [];
    gpus = [];
    temperatures = [];
    storage_health = [];
  };
}

pub accepted : (validate toy noon sample).0 ≡ none
unfolding program
accepted = refl
