-- ===== src/Report/Hardware/Rules.antt =====
-- The checks of one inventory resource, as in the loops of validateInventory
-- (internal/report/validate.go).
use server_status.Base.{Bool, not, ◌&&◌, ◌||◌, List, [], ◌∷◌, Option, ltb, ◌==◌}
use server_status.Base.Check.{◌>>◌, reject}
use server_status.Base.Distinct.{for_distinct}
use server_status.Base.Text.{Text, codes, contains, is_blank}
use server_status.Base.Int.{pos, ltb_ℤ, eqb_ℤ, add_int64}
use server_status.Base.Float.{of_nat, ◌<F◌}
use server_status.Report.Inventory.{
  CpuPackage, MemoryModule, BlockDevice, Filesystem, NetworkInterface, NetworkAddress, Gpu,
}
use server_status.Report.Error.{
  ValidationError, invalid_cpu_package, invalid_memory_module, invalid_block_device,
  invalid_block_device_kind, invalid_filesystem, invalid_network_interface, invalid_address,
  duplicate_address, invalid_address_scope, invalid_gpu,
}
use server_status.Report.Bigint.{max_int64}

unfoldable pub check_cpu_package : CpuPackage → Option ValidationError
check_cpu_package item =
    let classified_cores = add_int64 item.performance_cores item.efficiency_cores in
    reject
      (is_blank item.model_name
        || ltb_ℤ item.physical_cores (pos 1)
        || ltb_ℤ item.logical_threads item.physical_cores
        || ltb_ℤ item.package_index (pos 0)
        || ltb_ℤ item.performance_cores (pos 0)
        || ltb_ℤ item.efficiency_cores (pos 0)
        || (item.max_frequency_mhz <F of_nat 0)
        || (not (eqb_ℤ classified_cores (pos 0))
            && not (eqb_ℤ classified_cores item.physical_cores)))
      (invalid_cpu_package item.key)

unfoldable pub check_memory_module : MemoryModule → Option ValidationError
check_memory_module item =
    reject (item.size_bytes == 0 || ltb max_int64 item.size_bytes || ltb_ℤ item.speed_mts (pos 0))
      (invalid_memory_module item.key)

abbrev pub device_kinds : List Text
device_kinds = codes "disk" ∷ codes "raid" ∷ codes "multipath" ∷ codes "virtual" ∷ []

unfoldable pub check_block_device : BlockDevice → Option ValidationError
check_block_device item =
    reject (is_blank item.device_name || ltb max_int64 item.size_bytes)
      (invalid_block_device item.key)
    >> reject (not (contains device_kinds item.device_kind))
        (invalid_block_device_kind item.device_kind)

unfoldable pub check_filesystem : Filesystem → Option ValidationError
check_filesystem item =
    reject (is_blank item.device_name || is_blank item.filesystem_type || is_blank item.mount_point)
      (invalid_filesystem item.key)

abbrev pub address_scopes : List Text
address_scopes =
    codes "host"
    ∷ codes "link"
    ∷ codes "private"
    ∷ codes "global"
    ∷ codes "multicast"
    ∷ codes "unknown"
    ∷ []

unfoldable pub check_cidr : (Text → Bool) → Text → NetworkAddress → Option ValidationError
check_cidr is_cidr key item = reject (not (is_cidr item.address)) (invalid_address item.address key)

unfoldable pub check_scope : NetworkAddress → Option ValidationError
check_scope item =
    reject (not (contains address_scopes item.scope)) (invalid_address_scope item.scope)

-- The loop over the addresses of the interface with the given key, with its set seenAddresses.
unfoldable pub check_addresses : (Text → Bool) → Text → List NetworkAddress → Option ValidationError
unfolding for_distinct check_cidr check_scope
check_addresses is_cidr key =
    for_distinct (λ item. item.address) (λ item. duplicate_address item.address key)
      (check_cidr is_cidr key) check_scope []

unfoldable pub check_network_interface : (Text → Bool) → NetworkInterface → Option ValidationError
check_network_interface is_cidr item =
    reject (is_blank item.name || ltb_ℤ item.mtu (pos 0) || ltb_ℤ item.link_speed_mbps (pos 0))
      (invalid_network_interface item.key)
    >> check_addresses is_cidr item.key item.addresses

unfoldable pub check_gpu : Gpu → Option ValidationError
check_gpu item =
    reject
      (ltb_ℤ item.index (pos 0)
        || is_blank item.uuid
        || is_blank item.model_name
        || item.memory_total_bytes == 0
        || ltb max_int64 item.memory_total_bytes)
      (invalid_gpu item.key)

-- Unfolds every check, for evaluation.
unfoldable pub rules : Unit {0}
unfolding check_cpu_package check_memory_module check_block_device check_filesystem check_gpu
    check_cidr check_scope check_addresses check_network_interface
rules = tt
