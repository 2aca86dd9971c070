-- ===== src/Report/Hardware/Check.antt =====
-- validateInventory of internal/report/validate.go: the sizes, then for each kind of resource its
-- keys and its items.
use server_status.Base.{◌≤◌, Bool, ◌||◌, List, map, Option, none, ltb, All, ◌≡◌, ◌↔◌, arith, length}
use server_status.Base.Check.{◌>>◌, reject, for_each, for_each-eq-none_iff}
use server_status.Base.Text.{Text, codes}
use server_status.Report.Inventory.{
  Inventory, CpuPackage, MemoryModule, BlockDevice, Filesystem, NetworkInterface, Gpu,
}
use server_status.Report.Error.{ValidationError, too_many_resources}
use server_status.Report.Keys.{unique_keys, HasUniqueKeys, unique_keys_iff}
use server_status.Report.Hardware.Rules.{
  check_cpu_package, check_memory_module, check_block_device, check_filesystem, check_gpu,
  check_network_interface,
}
use server_status.Report.Hardware.Valid.{
  IsValidCpuPackage, IsValidMemoryModule, IsValidBlockDevice, IsValidFilesystem,
  IsValidNetworkInterface, IsValidGpu, check_cpu_package_iff, check_memory_module_iff,
  check_block_device_iff, check_filesystem_iff, check_gpu_iff, check_network_interface_iff,
}

unfoldable pub check_sizes : Inventory → Option ValidationError
check_sizes inventory =
    reject
      (ltb 1024 (length inventory.cpu_packages)
        || ltb 4096 (length inventory.memory_modules)
        || ltb 4096 (length inventory.block_devices)
        || ltb 4096 (length inventory.filesystems)
        || ltb 4096 (length inventory.network_interfaces)
        || ltb 1024 (length inventory.gpus))
      too_many_resources

-- The keys of one kind of resource, then its items.
unfoldable pub check_items :
    {A : Type 0}
    → Text
    → (A → Text)
    → (A → Option ValidationError)
    → List A
    → Option ValidationError
check_items kind key check items = unique_keys kind (map key items) >> for_each check items

unfoldable pub validate_inventory : (Text → Bool) → Inventory → Option ValidationError
validate_inventory is_cidr inventory =
    check_sizes inventory
    >> check_items (codes "CPU package") (λ i. i.key) check_cpu_package inventory.cpu_packages
    >> check_items (codes "memory module") (λ i. i.key) check_memory_module inventory.memory_modules
    >> check_items (codes "block device") (λ i. i.key) check_block_device inventory.block_devices
    >> check_items (codes "filesystem") (λ i. i.key) check_filesystem inventory.filesystems
    >> check_items (codes "network interface") (λ i. i.key) (check_network_interface is_cidr)
        inventory.network_interfaces
    >> check_items (codes "GPU") (λ i. i.key) check_gpu inventory.gpus

-- The items of one kind: different filled keys, and each item valid.
pub record AreValidItems {A : Type 0} (key : A → Text) (P : A → Type 0) (items : List A)
    : Type 0 where
  pub keys : HasUniqueKeys (map key items)
  pub valid : All P items

pub record HasValidSizes (inventory : Inventory) : Type 0 where
  pub cpu_packages : length inventory.cpu_packages ≤ 1024
  pub memory_modules : length inventory.memory_modules ≤ 4096
  pub block_devices : length inventory.block_devices ≤ 4096
  pub filesystems : length inventory.filesystems ≤ 4096
  pub network_interfaces : length inventory.network_interfaces ≤ 4096
  pub gpus : length inventory.gpus ≤ 1024

pub record IsValidInventory (is_cidr : Text → Bool) (inventory : Inventory) : Type 0 where
  pub sizes : HasValidSizes inventory
  pub cpu_packages :
      AreValidItems (λ (i : CpuPackage). i.key) IsValidCpuPackage inventory.cpu_packages
  pub memory_modules :
      AreValidItems (λ (i : MemoryModule). i.key) IsValidMemoryModule inventory.memory_modules
  pub block_devices :
      AreValidItems (λ (i : BlockDevice). i.key) IsValidBlockDevice inventory.block_devices
  pub filesystems :
      AreValidItems (λ (i : Filesystem). i.key) IsValidFilesystem inventory.filesystems
  pub network_interfaces :
      AreValidItems
        (λ (i : NetworkInterface). i.key)
        (IsValidNetworkInterface is_cidr)
        inventory.network_interfaces
  pub gpus : AreValidItems (λ (i : Gpu). i.key) IsValidGpu inventory.gpus

check_sizes_iff : (inventory : Inventory) → (check_sizes inventory ≡ none) ↔ HasValidSizes inventory
unfolding check_sizes
check_sizes_iff inventory = ground arith

module _ {A : Type 0} (kind : Text) (key : A → Text) (check : A → Option ValidationError)
    (P : A → Type 0) (decides : (x : A) → (check x ≡ none) ↔ P x) where
  pub check_items_iff :
      (items : List A) → (check_items kind key check items ≡ none) ↔ AreValidItems key P items
  unfolding check_items
  check_items_iff items =
      ground
        (arith, unique_keys_iff kind (map key items), for_each-eq-none_iff P check decides items)

-- validateInventory accepts exactly the inventories that keep the limits on their sizes and in which
-- the keys of each kind are filled and different when trimmed, and every item is valid.
pub validate_inventory_iff :
    (is_cidr : Text → Bool) (inventory : Inventory)
    → (validate_inventory is_cidr inventory ≡ none) ↔ IsValidInventory is_cidr inventory
unfolding validate_inventory
validate_inventory_iff is_cidr inventory = ground (
  arith,
  check_sizes_iff inventory,
  check_items_iff (codes "CPU package") (λ (i : CpuPackage). i.key) _ _ check_cpu_package_iff
      inventory.cpu_packages,
  check_items_iff (codes "memory module") (λ (i : MemoryModule). i.key) _ _ check_memory_module_iff
      inventory.memory_modules,
  check_items_iff (codes "block device") (λ (i : BlockDevice). i.key) _ _ check_block_device_iff
      inventory.block_devices,
  check_items_iff (codes "filesystem") (λ (i : Filesystem). i.key) _ _ check_filesystem_iff
      inventory.filesystems,
  check_items_iff (codes "network interface") (λ (i : NetworkInterface). i.key) _ _
      (check_network_interface_iff is_cidr) inventory.network_interfaces,
  check_items_iff (codes "GPU") (λ (i : Gpu). i.key) _ _ check_gpu_iff inventory.gpus,
)
