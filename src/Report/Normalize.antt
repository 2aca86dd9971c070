-- ===== src/Report/Normalize.antt =====
-- internal/report/inventory.go: the canonical order of an inventory, and its fingerprint.
use mathlib.Core.List.{Perm, Nodup}
use mathlib.Core.Option
use server_status.Base.{List, map, Option, ◌≡◌, ap}
use server_status.Base.Sort.{sort_by, sort_by_unique, Identifies-of_Nodup}
use server_status.Base.Float.{Float}
use server_status.Base.Text.{Text}
use server_status.Report.Inventory.{
  Inventory, CpuPackage, MemoryModule, BlockDevice, Filesystem, NetworkInterface, Gpu,
}
use server_status.Report.Platform.{Platform}

-- The mount options in order: `sort.Strings`.
unfoldable pub sort_options : Filesystem → Filesystem
sort_options item = record item { mount_options = sort_by (λ option. option) item.mount_options }

unfoldable pub sort_addresses : NetworkInterface → NetworkInterface
sort_addresses item = record item { addresses = sort_by (λ a. a.address) item.addresses }

unfoldable pub normalize_inventory : Inventory → Inventory
normalize_inventory inventory = record {
  cpu_packages = sort_by (λ i. i.key) inventory.cpu_packages;
  memory_modules = sort_by (λ i. i.key) inventory.memory_modules;
  block_devices = sort_by (λ i. i.key) inventory.block_devices;
  filesystems = map sort_options (sort_by (λ i. i.key) inventory.filesystems);
  network_interfaces = map sort_addresses (sort_by (λ i. i.key) inventory.network_interfaces);
  gpus = sort_by (λ i. i.key) inventory.gpus;
}

-- `none` where json.Marshal fails
unfoldable pub inventory_fingerprint : Platform → Inventory → Option Text
inventory_fingerprint p inventory =
    Option.map p.sha256_hex (p.marshal (normalize_inventory inventory))

-- The same resources, in any order.
pub record SameResources (a b : Inventory) : Type 0 where
  pub cpu_packages : Perm a.cpu_packages b.cpu_packages
  pub memory_modules : Perm a.memory_modules b.memory_modules
  pub block_devices : Perm a.block_devices b.block_devices
  pub filesystems : Perm a.filesystems b.filesystems
  pub network_interfaces : Perm a.network_interfaces b.network_interfaces
  pub gpus : Perm a.gpus b.gpus

-- The keys of each kind of resource differ.
pub record HasDistinctKeys (a : Inventory) : Type 0 where
  pub cpu_packages : Nodup (map (λ (i : CpuPackage). i.key) a.cpu_packages)
  pub memory_modules : Nodup (map (λ (i : MemoryModule). i.key) a.memory_modules)
  pub block_devices : Nodup (map (λ (i : BlockDevice). i.key) a.block_devices)
  pub filesystems : Nodup (map (λ (i : Filesystem). i.key) a.filesystems)
  pub network_interfaces : Nodup (map (λ (i : NetworkInterface). i.key) a.network_interfaces)
  pub gpus : Nodup (map (λ (i : Gpu). i.key) a.gpus)

sort_by_perm :
    {A : Type 0} (set : IsSet A) (key : A → Text) {xs ys : List A}
    → Perm xs ys
    → Nodup (map key xs)
    → sort_by key xs ≡ sort_by key ys
sort_by_perm set key {xs} {ys} p n =
    sort_by_unique set key xs ys p (Identifies-of_Nodup set key xs n)

Float-set : IsSet Float
Float-set = hlevel

CpuPackage-set : IsSet CpuPackage
CpuPackage-set = hlevel Float-set

MemoryModule-set : IsSet MemoryModule
MemoryModule-set = hlevel

BlockDevice-set : IsSet BlockDevice
BlockDevice-set = hlevel

Filesystem-set : IsSet Filesystem
Filesystem-set = hlevel

NetworkInterface-set : IsSet NetworkInterface
NetworkInterface-set = hlevel

Gpu-set : IsSet Gpu
Gpu-set = hlevel

-- Inventories with the same resources, under keys that differ, normalise to one inventory.
pub normalize_inventory_canonical :
    (a b : Inventory)
    → HasDistinctKeys a
    → SameResources a b
    → normalize_inventory a ≡ normalize_inventory b
unfolding normalize_inventory
normalize_inventory_canonical a b n s = λ i. record {
  cpu_packages = sort_by_perm CpuPackage-set (λ c. c.key) s.cpu_packages n.cpu_packages i;
  memory_modules = sort_by_perm MemoryModule-set (λ c. c.key) s.memory_modules n.memory_modules i;
  block_devices = sort_by_perm BlockDevice-set (λ c. c.key) s.block_devices n.block_devices i;
  filesystems =
      map sort_options (sort_by_perm Filesystem-set (λ c. c.key) s.filesystems n.filesystems i);
  network_interfaces =
      map sort_addresses (
        sort_by_perm NetworkInterface-set (λ c. c.key) s.network_interfaces n.network_interfaces i);
  gpus = sort_by_perm Gpu-set (λ c. c.key) s.gpus n.gpus i;
}

-- The fingerprint of an inventory whose keys differ does not depend on the order of its resources.
pub inventory_fingerprint_canonical :
    (p : Platform) (a b : Inventory)
    → HasDistinctKeys a
    → SameResources a b
    → inventory_fingerprint p a ≡ inventory_fingerprint p b
unfolding inventory_fingerprint
inventory_fingerprint_canonical p a b n s =
    ap (λ c. Option.map p.sha256_hex (p.marshal c)) (normalize_inventory_canonical a b n s)
