-- ===== src/Store/Active.antt =====
-- The maps from keys to identifiers that Ingest reads back from the inventory tables: the active*IDs
-- functions of ingest.go.
use server_status.Base.{List, [], ◌∷◌, ◌&&◌, if◌then◌else◌}
use server_status.Base.Dict.{put}
use server_status.Base.Int.{ℤ}
use server_status.Base.Text.{Text, text_eq}
use server_status.Store.Table.{Row, is_none}
use server_status.Store.Network.{InterfaceColumns}
use server_status.Store.Inventory.{FilesystemColumns, BlockDeviceColumns, GpuColumns}

module _ {C V : Type 0} (value : Row C → V) where
  -- The loop over the rows that `WHERE node_id = $1 AND removed_at IS NULL` selects.
  unfoldable pub collect : Text → List (Text × V) → List (Row C) → List (Text × V)
  collect node found [] = found
  collect node found (row ∷ rows) =
      collect node
        (if text_eq row.node_id node && is_none row.removed_at
          then put row.key (value row) found
          else found)
        rows

unfoldable pub active_filesystem_ids : Text → List (Row FilesystemColumns) → List (Text × Text)
unfolding collect
active_filesystem_ids node = collect (λ row. row.id) node []

unfoldable pub active_interface_ids : Text → List (Row InterfaceColumns) → List (Text × Text)
unfolding collect
active_interface_ids node = collect (λ row. row.id) node []

unfoldable pub active_block_device_ids : Text → List (Row BlockDeviceColumns) → List (Text × Text)
unfolding collect
active_block_device_ids node = collect (λ row. row.id) node []

pub record ActiveGpu : Type 0 where
  pub id : Text
  pub memory_total_bytes : ℤ

unfoldable pub active_gpu_ids : Text → List (Row GpuColumns) → List (Text × ActiveGpu)
unfolding collect
active_gpu_ids node =
    collect (λ row. record { id = row.id; memory_total_bytes = row.columns.memory_total_bytes })
      node []
