-- ===== src/Windows/Inventory.antt =====
-- windows-agent/model.go and windows-agent/fingerprint.go: the inventory of the agent for Windows, whose
-- processors do not tell kinds of cores apart, and its fingerprint.
use mathlib.Core.Option
use server_status.Base.{ℕ, List, [], ◌∷◌, map, Option, none, some, ◌≡◌, refl, ap, ◌∙◌, sym}
use server_status.Base.Float.{Float}
use server_status.Base.Int.{ℤ, pos}
use server_status.Base.Sort.{sort_by, sort_by-map, sort_by_again}
use server_status.Base.Text.{Text, text_eq_refl}
use server_status.Report.Inventory.{MemoryModule, BlockDevice, Filesystem, NetworkInterface, Gpu}
use server_status.Report.Inventory
use server_status.Report.Normalize.{
  sort_options, sort_addresses, normalize_inventory, inventory_fingerprint,
}
use server_status.Report.Platform.{Platform}
use server_status.Report.Types.{Report}
use server_status.Report.Validate.{check_fingerprint}

pub record WindowsCpuPackage : Type 0 where
  pub key : Text
  pub package_index : ℤ
  pub vendor : Text
  pub model_name : Text
  pub physical_cores : ℤ
  pub logical_threads : ℤ
  pub max_frequency_mhz : Float

-- The structs of the other resources have the fields of those of internal/report.
pub record WindowsInventory : Type 0 where
  pub cpu_packages : List WindowsCpuPackage
  pub memory_modules : List MemoryModule
  pub block_devices : List BlockDevice
  pub filesystems : List Filesystem
  pub network_interfaces : List NetworkInterface
  pub gpus : List Gpu

-- normalizeInventory
unfoldable pub normalize_windows_inventory : WindowsInventory → WindowsInventory
normalize_windows_inventory inventory = record {
  cpu_packages = sort_by (λ i. i.key) inventory.cpu_packages;
  memory_modules = sort_by (λ i. i.key) inventory.memory_modules;
  block_devices = sort_by (λ i. i.key) inventory.block_devices;
  filesystems = map sort_options (sort_by (λ i. i.key) inventory.filesystems);
  network_interfaces = map sort_addresses (sort_by (λ i. i.key) inventory.network_interfaces);
  gpus = sort_by (λ i. i.key) inventory.gpus;
}

-- inventoryFingerprint, with json.Marshal and the hexadecimal SHA-256 of the bytes.
unfoldable pub windows_fingerprint :
    (WindowsInventory → Option (List ℕ)) → (List ℕ → Text) → WindowsInventory → Option Text
windows_fingerprint marshal sha256_hex inventory =
    Option.map sha256_hex (marshal (normalize_windows_inventory inventory))

-- What the server decodes: the fields that are left out are zero.
abbrev to_report_package : WindowsCpuPackage → Inventory.CpuPackage
to_report_package item = record {
  key = item.key;
  package_index = item.package_index;
  vendor = item.vendor;
  model_name = item.model_name;
  physical_cores = item.physical_cores;
  logical_threads = item.logical_threads;
  performance_cores = pos 0;
  efficiency_cores = pos 0;
  max_frequency_mhz = item.max_frequency_mhz;
}

abbrev pub to_report : WindowsInventory → Inventory.Inventory
to_report inventory = record {
  cpu_packages = map to_report_package inventory.cpu_packages;
  memory_modules = inventory.memory_modules;
  block_devices = inventory.block_devices;
  filesystems = inventory.filesystems;
  network_interfaces = inventory.network_interfaces;
  gpus = inventory.gpus;
}

sort_options-again : (item : Filesystem) → sort_options (sort_options item) ≡ sort_options item
unfolding sort_options
sort_options-again item =
    λ i. record item { mount_options = sort_by_again (λ option. option) item.mount_options i }

sort_addresses-again :
    (item : NetworkInterface) → sort_addresses (sort_addresses item) ≡ sort_addresses item
unfolding sort_addresses
sort_addresses-again item =
    λ i. record item { addresses = sort_by_again (λ a. a.address) item.addresses i }

-- Items in order, each in its normal form, are normal.
module _ {A : Type 0} (key : A → Text) (f : A → A) (keeps : (x : A) → key (f x) ≡ key x)
    (again : (x : A) → f (f x) ≡ f x) where
  map_again : (xs : List A) → map f (map f xs) ≡ map f xs
  map_again [] = refl
  map_again (x ∷ xs) = λ i. again x i ∷ map_again xs i

  normal_again :
      (xs : List A) → map f (sort_by key (map f (sort_by key xs))) ≡ map f (sort_by key xs)
  normal_again xs =
      ap (map f) (sort_by-map key key f keeps (sort_by key xs) ∙ ap (map f) (sort_by_again key xs))
      ∙ map_again (sort_by key xs)

-- A normal inventory is its own normal form.
normalize_inventory-again :
    (a : Inventory.Inventory) → normalize_inventory (normalize_inventory a) ≡ normalize_inventory a
unfolding normalize_inventory
normalize_inventory-again a = λ i. record {
  cpu_packages = sort_by_again (λ c. c.key) a.cpu_packages i;
  memory_modules = sort_by_again (λ c. c.key) a.memory_modules i;
  block_devices = sort_by_again (λ c. c.key) a.block_devices i;
  filesystems =
      normal_again (λ c. c.key) sort_options (λ x. unfold sort_options in refl) sort_options-again
        a.filesystems i;
  network_interfaces =
      normal_again (λ c. c.key) sort_addresses (λ x. unfold sort_addresses in refl)
        sort_addresses-again a.network_interfaces i;
  gpus = sort_by_again (λ c. c.key) a.gpus i;
}

-- Both programs put an inventory into one order.
normalize-to_report :
    (a : WindowsInventory)
    → to_report (normalize_windows_inventory a) ≡ normalize_inventory (to_report a)
unfolding normalize_windows_inventory normalize_inventory
normalize-to_report a = λ i. record (normalize_inventory (to_report a)) {
  cpu_packages =
      sym (sort_by-map (λ c. c.key) (λ c. c.key) to_report_package (λ x. refl) a.cpu_packages) i;
}

-- An inventory that the agent for Windows has put in order and sent, with the fingerprint that the
-- agent made of it, passes the server's check of the fingerprint, if the server's json.Marshal writes
-- what it has decoded as the agent's wrote it.
pub windows_fingerprint-accepted :
    (p : Platform) (marshal : WindowsInventory → Option (List ℕ))
    → ((b : WindowsInventory) → marshal b ≡ p.marshal (to_report b))
    → (a : WindowsInventory) (r : Report)
    → windows_fingerprint marshal p.sha256_hex a ≡ some r.inventory_fingerprint
    → r.inventory ≡ to_report (normalize_windows_inventory a)
    → check_fingerprint r (inventory_fingerprint p r.inventory) ≡ none
unfolding windows_fingerprint inventory_fingerprint check_fingerprint
windows_fingerprint-accepted p marshal same a r f sent =
    let order : normalize_inventory r.inventory ≡ to_report (normalize_windows_inventory a) =
      ap normalize_inventory (sent ∙ normalize-to_report a)
      ∙ normalize_inventory-again (to_report a)
      ∙ sym (normalize-to_report a) in
    let fingerprint : Option.map p.sha256_hex (p.marshal (normalize_inventory r.inventory))
        ≡ some r.inventory_fingerprint =
      ap (λ x. Option.map p.sha256_hex (p.marshal x)) order
      ∙ ap (Option.map p.sha256_hex) (sym (same (normalize_windows_inventory a)))
      ∙ f in
    rw (fingerprint, check_fingerprint, text_eq_refl r.inventory_fingerprint) refl
