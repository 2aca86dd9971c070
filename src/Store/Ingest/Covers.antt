-- ===== src/Store/Ingest/Covers.antt =====
-- What the active resources of a node hold after syncInventory of internal/store/ingest.go.
use mathlib.Core.List.{Mem}
use server_status.Base.{Bool, map, ◌≢◌}
use server_status.Base.Text.{Text}
use server_status.Report.Inventory.{Inventory, BlockDevice, Filesystem, Gpu}
use server_status.Report.Hardware.Check.{IsValidInventory}
use server_status.Store.Table.{Time}
use server_status.Store.Sync.{find_active-sync_other}
use server_status.Store.Inventory.{
  sync_gpus, sync_block_devices, sync_filesystems, gpu_columns, block_device_columns,
  filesystem_columns,
}
use server_status.Store.Network.{
  Addresses, interface_key, interface_columns, sync_network_interfaces-sync,
}
use server_status.Store.Accepted.{IsActive, sync-IsActive}
use server_status.Store.Tables.{Resources, NewIds}
use server_status.Store.Ingest.{sync_inventory}

-- The node has an active row for each resource of the inventory that metrics name.
pub record Covers (node : Text) (inventory : Inventory) (r : Resources) : Type 0 where
  pub filesystems :
      (k : Text)
      → Mem k (map (λ (i : Filesystem). i.key) inventory.filesystems)
      → IsActive node r.filesystems k
  pub interfaces :
      (k : Text)
      → Mem k (map interface_key inventory.network_interfaces)
      → IsActive node r.interfaces k
  pub gpus : (k : Text) → Mem k (map (λ (i : Gpu). i.key) inventory.gpus) → IsActive node r.gpus k
  pub block_devices :
      (k : Text)
      → Mem k (map (λ (i : BlockDevice). i.key) inventory.block_devices)
      → IsActive node r.block_devices k

module _ (net : Addresses) (new : NewIds) where
  -- A sync of an inventory that is valid covers it.
  pub sync_inventory-Covers :
      (is_cidr : Text → Bool) (node : Text) (inventory : Inventory) (at : Time) (r : Resources)
      → IsValidInventory is_cidr inventory
      → Covers node inventory (sync_inventory net new node inventory at r)
  unfolding sync_inventory sync_filesystems sync_gpus sync_block_devices
  sync_inventory-Covers is_cidr node inventory at r v = record {
    filesystems = λ k.
        sync-IsActive new.filesystem (λ (i : Filesystem). i.key) filesystem_columns node at
          inventory.filesystems r.filesystems k v.filesystems.keys;
    interfaces = λ k m.
        rw
          (sync_network_interfaces-sync net new.interface new.address node
            inventory.network_interfaces at r.interfaces r.addresses)
          (sync-IsActive new.interface interface_key (interface_columns net) node at
            inventory.network_interfaces r.interfaces k v.network_interfaces.keys m);
    gpus = λ k.
        sync-IsActive new.gpu (λ (i : Gpu). i.key) gpu_columns node at inventory.gpus r.gpus k
          v.gpus.keys;
    block_devices = λ k.
        sync-IsActive new.block_device (λ (i : BlockDevice). i.key) block_device_columns node at
          inventory.block_devices r.block_devices k v.block_devices.keys;
  }

  -- A sync of another node leaves them as they were.
  pub sync_inventory-Covers_other :
      (node other : Text) (inventory before : Inventory) (at : Time) (r : Resources)
      → other ≢ node
      → Covers other before r
      → Covers other before (sync_inventory net new node inventory at r)
  unfolding sync_inventory sync_filesystems sync_gpus sync_block_devices
  sync_inventory-Covers_other node other inventory before at r d c = record {
    filesystems = λ k m.
        rw
          (find_active-sync_other new.filesystem (λ (i : Filesystem). i.key) filesystem_columns node
            at other k inventory.filesystems r.filesystems d)
          (c.filesystems k m);
    interfaces = λ k m.
        rw
          (sync_network_interfaces-sync net new.interface new.address node
            inventory.network_interfaces at r.interfaces r.addresses)
          (rw
            (find_active-sync_other new.interface interface_key (interface_columns net) node at
              other k inventory.network_interfaces r.interfaces d)
            (c.interfaces k m));
    gpus = λ k m.
        rw
          (find_active-sync_other new.gpu (λ (i : Gpu). i.key) gpu_columns node at other k
            inventory.gpus r.gpus d)
          (c.gpus k m);
    block_devices = λ k m.
        rw
          (find_active-sync_other new.block_device (λ (i : BlockDevice). i.key) block_device_columns
            node at other k inventory.block_devices r.block_devices d)
          (c.block_devices k m);
  }
