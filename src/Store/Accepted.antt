-- ===== src/Store/Accepted.antt =====
-- What an accepted report finds in the store once its inventory is synced.
use mathlib.Core.List.{Mem}
use server_status.Base.{List, map, none, some, ◌≡◌, ◌∙◌, All, All-map}
use server_status.Base.Text.{Text}
use server_status.Report.Inventory.{BlockDevice, Filesystem}
use server_status.Report.Types.{Report}
use server_status.Report.Platform.{Platform}
use server_status.Report.Keys.{HasUniqueKeys, Nodup-of_HasUniqueKeys}
use server_status.Report.Validate.{validate, validate_iff}
use server_status.Store.Table.{Row, Time, find_active}
use server_status.Store.Sync.{sync, find_active-sync, find_item-Mem}
use server_status.Store.Inventory.{
  FilesystemColumns, BlockDeviceColumns, filesystem_columns, block_device_columns, sync_filesystems,
  sync_block_devices,
}

-- The key has an active row.
abbrev pub IsActive : {C : Type 0} → Text → List (Row C) → Text → Type 0
IsActive {C} node rows key = (c : C) × (find_active node key rows ≡ some c)

module _ {C Item : Type 0} (new_id : List (Row C) → Text) (key : Item → Text)
    (columns : Item → C) where
  pub sync-IsActive :
      (node : Text) (at : Time) (items : List Item) (rows : List (Row C)) (k : Text)
      → HasUniqueKeys (map key items)
      → Mem k (map key items)
      → IsActive node (sync new_id key columns node items at rows) k
  sync-IsActive node at items rows k u m =
      let (c, e) = find_item-Mem new_id key columns k items m in
      (
        c,
        find_active-sync new_id key columns node at k items rows
              (Nodup-of_HasUniqueKeys (map key items) u)
            ∙ e,
      )

-- Once the inventory of an accepted report is synced, each filesystem that its metrics name has an
-- active row of the node, and so has each block device that its storage health names.
pub accepted-IsActive :
    (p : Platform) (now : Time) (r : Report) (node : Text) (at : Time)
    (new_filesystem : List (Row FilesystemColumns) → Text)
    (new_block_device : List (Row BlockDeviceColumns) → Text)
    (filesystems : List (Row FilesystemColumns)) (block_devices : List (Row BlockDeviceColumns))
    → (validate p now r).0 ≡ none
    → All
        (λ m.
          IsActive node
            (sync_filesystems new_filesystem node r.inventory.filesystems at filesystems)
            m.filesystem_key)
        r.metrics.filesystems
      × All
          (λ h.
            IsActive node
              (sync_block_devices new_block_device node r.inventory.block_devices at block_devices)
              h.block_device_key)
          r.metrics.storage_health
unfolding sync_filesystems sync_block_devices
accepted-IsActive p now r node at new_filesystem new_block_device filesystems block_devices h =
    let v = (validate_iff p now r).0 h in
    (
      All-map _ _
          (λ x m.
            sync-IsActive new_filesystem (λ (i : Filesystem). i.key) filesystem_columns node at
              r.inventory.filesystems filesystems x.filesystem_key v.inventory.filesystems.keys
              m.known_key)
          r.metrics.filesystems v.metrics.filesystems.valid,
      All-map _ _
          (λ x m.
            sync-IsActive new_block_device (λ (i : BlockDevice). i.key) block_device_columns node at
              r.inventory.block_devices block_devices x.block_device_key
              v.inventory.block_devices.keys m.state.known_key)
          r.metrics.storage_health v.metrics.storage_health.valid,
    )
