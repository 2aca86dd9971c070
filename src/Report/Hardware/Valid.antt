-- ===== src/Report/Hardware/Valid.antt =====
-- What an accepted inventory resource is, and that its checks decide it.
use server_status.Base.{◌<◌, Bool, true, false, List, [], map, none, All, ◌≡◌, ◌≢◌, ◌↔◌, ◌⊎◌, arith}
use server_status.Base.Check.{◌>>◌}
use server_status.Base.Text.{Text, trim_space, is_empty-false_iff, contains_iff}
use server_status.Base.Int.{pos, add_int64, ◌≤ℤ◌}
use server_status.Base.Float.{of_nat, ◌<F◌}
use server_status.Report.Inventory.{
  CpuPackage, MemoryModule, BlockDevice, Filesystem, NetworkInterface, NetworkAddress, Gpu,
}
use server_status.Report.Bigint.{Fits}
use server_status.Base.Distinct.{for_distinct_iff}
use mathlib.Core.List.{Mem, Nodup}
use server_status.Report.Error.{duplicate_address}
use server_status.Report.Hardware.Rules.{
  check_cpu_package, check_memory_module, check_block_device, check_filesystem, check_gpu,
  check_cidr, check_scope, check_addresses, check_network_interface, device_kinds, address_scopes,
}

pub record IsValidCpuPackage (item : CpuPackage) : Type 0 where
  pub named : trim_space item.model_name ≢ []
  pub cores : pos 1 ≤ℤ item.physical_cores
  pub threads : item.physical_cores ≤ℤ item.logical_threads
  pub index : pos 0 ≤ℤ item.package_index
  pub performance : pos 0 ≤ℤ item.performance_cores
  pub efficiency : pos 0 ≤ℤ item.efficiency_cores
  pub frequency : (item.max_frequency_mhz <F of_nat 0) ≡ false
  pub classified :
      (add_int64 item.performance_cores item.efficiency_cores ≡ pos 0)
      ⊎ (add_int64 item.performance_cores item.efficiency_cores ≡ item.physical_cores)

pub record IsValidMemoryModule (item : MemoryModule) : Type 0 where
  pub filled : 0 < item.size_bytes
  pub fits : Fits item.size_bytes
  pub speed : pos 0 ≤ℤ item.speed_mts

pub record IsValidBlockDevice (item : BlockDevice) : Type 0 where
  pub named : trim_space item.device_name ≢ []
  pub fits : Fits item.size_bytes
  pub kind : Mem item.device_kind device_kinds

pub record IsValidFilesystem (item : Filesystem) : Type 0 where
  pub device : trim_space item.device_name ≢ []
  pub kind : trim_space item.filesystem_type ≢ []
  pub mount : trim_space item.mount_point ≢ []

module _ (is_cidr : Text → Bool) where
  pub record IsValidAddress (item : NetworkAddress) : Type 0 where
    pub cidr : is_cidr item.address ≡ true
    pub scope : Mem item.scope address_scopes

  pub record IsValidNetworkInterface (item : NetworkInterface) : Type 0 where
    pub named : trim_space item.name ≢ []
    pub mtu : pos 0 ≤ℤ item.mtu
    pub speed : pos 0 ≤ℤ item.link_speed_mbps
    pub addresses : All IsValidAddress item.addresses
    pub distinct : Nodup (map (λ (a : NetworkAddress). a.address) item.addresses)

pub record IsValidGpu (item : Gpu) : Type 0 where
  pub index : pos 0 ≤ℤ item.index
  pub identified : trim_space item.uuid ≢ []
  pub named : trim_space item.model_name ≢ []
  pub filled : 0 < item.memory_total_bytes
  pub fits : Fits item.memory_total_bytes

pub check_cpu_package_iff :
    (item : CpuPackage) → (check_cpu_package item ≡ none) ↔ IsValidCpuPackage item
unfolding check_cpu_package
check_cpu_package_iff item = ground (arith, is_empty-false_iff (trim_space item.model_name))

pub check_memory_module_iff :
    (item : MemoryModule) → (check_memory_module item ≡ none) ↔ IsValidMemoryModule item
unfolding check_memory_module
check_memory_module_iff item = ground arith

pub check_block_device_iff :
    (item : BlockDevice) → (check_block_device item ≡ none) ↔ IsValidBlockDevice item
unfolding check_block_device
check_block_device_iff item = ground (
  arith,
  is_empty-false_iff (trim_space item.device_name),
  contains_iff device_kinds item.device_kind,
)

pub check_filesystem_iff :
    (item : Filesystem) → (check_filesystem item ≡ none) ↔ IsValidFilesystem item
unfolding check_filesystem
check_filesystem_iff item = ground (
  arith,
  is_empty-false_iff (trim_space item.device_name),
  is_empty-false_iff (trim_space item.filesystem_type),
  is_empty-false_iff (trim_space item.mount_point),
)

pub check_gpu_iff : (item : Gpu) → (check_gpu item ≡ none) ↔ IsValidGpu item
unfolding check_gpu
check_gpu_iff item = ground (
  arith,
  is_empty-false_iff (trim_space item.uuid),
  is_empty-false_iff (trim_space item.model_name),
)

module _ (is_cidr : Text → Bool) where
  check_address_iff :
      (key : Text) (item : NetworkAddress)
      → ((check_cidr is_cidr key item >> check_scope item) ≡ none) ↔ IsValidAddress is_cidr item
  unfolding check_cidr check_scope
  check_address_iff key item = ground (arith, contains_iff address_scopes item.scope)

  check_addresses_iff :
      (key : Text) (items : List NetworkAddress)
      → (check_addresses is_cidr key items ≡ none) ↔ (
          All (IsValidAddress is_cidr) items
          × Nodup (map (λ (a : NetworkAddress). a.address) items))
  unfolding check_addresses
  check_addresses_iff key items =
      for_distinct_iff (λ (a : NetworkAddress). a.address)
        (λ item. duplicate_address item.address key) (check_cidr is_cidr key) check_scope
        (IsValidAddress is_cidr) (check_address_iff key) items

  pub check_network_interface_iff :
      (item : NetworkInterface)
      → (check_network_interface is_cidr item ≡ none) ↔ IsValidNetworkInterface is_cidr item
  unfolding check_network_interface
  check_network_interface_iff item = ground (
    arith,
    is_empty-false_iff (trim_space item.name),
    check_addresses_iff item.key item.addresses,
  )
