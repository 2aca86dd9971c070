-- ===== src/Store/Ingest/Total.antt =====
-- The samples of an accepted report: Ingest of internal/store/ingest.go fails on them only by a call
-- that the database does not accept.
use mathlib.Core.List.{Mem, Nodup-nil, mem-cons_self, mem-cons_of_mem}
use server_status.Base.{
  ℕ, Bool, List, [], ◌∷◌, map, some, ◌≡◌, refl, sym, inl, inr, arith, Bool-cases, Option-cases, All,
  All-map,
}
use server_status.Base.Text.{Text, text_eq, text_eq_iff}
use server_status.Report.Inventory.{Gpu}
use server_status.Report.Types.{Report, StorageHealth}
use server_status.Report.Measurements.Rules.{gpu_memory}
use server_status.Report.Measurements.Valid.{UsesMemory}
use server_status.Report.Measurements.Check.{AreValidMetrics}
use server_status.Store.Table.{Row}
use server_status.Store.Inventory.{GpuColumns}
use server_status.Store.Active.{
  active_filesystem_ids, active_interface_ids, active_gpu_ids, active_block_device_ids,
}
use server_status.Store.Samples.{Stamp, node_sample, filesystem_sample, network_sample, gpu_sample}
use server_status.Store.Transaction.{
  Statement, Result, stored, invalid_filesystem, invalid_interface, invalid_gpu,
  invalid_block_device, check_temperatures, check_storage_health, delete_storage_health,
  insert_filesystem, insert_interface, insert_gpu, insert_storage_health, Outcome, execute-Outcome,
  execute_each-Outcome, and_then-Outcome,
}
use server_status.Store.Snapshots.{
  replace_temperature_metrics, replace_storage_health_metrics, storage_health_row, delete_current,
  health_key, Current, StorageHealthColumns, current_snapshot_can_be_replaced,
}
use server_status.Store.Tables.{Tables}
use server_status.Store.Ingest.{
  store_samples, store_filesystem_samples, store_network_samples, store_gpu_samples,
  bucket_statements, store_temperatures, temperature_statements, store_health, upsert_node_sample,
  filesystem_metric_key, interface_metric_key, gpu_metric_key,
}
use server_status.Store.Ingest.Covers.{Covers}
use server_status.Store.Ingest.Lookup.{Has, collect-Has, insert_each-Outcome}

gpu_memory-Mem :
    (gpus : List Gpu) (k : Text) (m : ℕ)
    → gpu_memory gpus k ≡ some m
    → Mem k (map (λ (i : Gpu). i.key) gpus)
unfolding gpu_memory
gpu_memory-Mem [] k m e = absurd (ground (arith, e))
gpu_memory-Mem (g ∷ gpus) k m e = elim (Option-cases (gpu_memory gpus k)) [
  | inr (a, o) ↦ mem-cons_of_mem g.key (gpu_memory-Mem gpus k a o)
  | inl o ↦ elim (Bool-cases (text_eq g.key k)) [
    | inl h ↦ rw (sym ((text_eq_iff g.key k).0 h)) mem-cons_self
    | inr h ↦ absurd (ground (arith, rw (o, gpu_memory, h) at e))
  ]
]

-- A GPU whose memory is known is one of the inventory.
UsesMemory-Mem :
    (gpus : List Gpu) (k : Text) (used : ℕ)
    → UsesMemory (gpu_memory gpus k) used
    → Mem k (map (λ (i : Gpu). i.key) gpus)
UsesMemory-Mem gpus k used h = elim (Option-cases (gpu_memory gpus k)) [
  | inl e ↦ absurd (rw e at h)
  | inr (m, e) ↦ gpu_memory-Mem gpus k m e
]

-- A step that leaves anything.
abbrev pub Ends : {A : Type 0} → (Statement → Bool) → Result A → Type 0
Ends accepts m = Outcome accepts (λ out. Unit {0}) m

-- What the samples of a report leave of the tables.
pub record IsStored (stamp : Stamp) (payload : Report) (db out : Tables) : Type 0 where
  pub resources : out.resources ≡ db.resources
  pub nodes : out.nodes ≡ db.nodes
  pub samples : out.node_samples ≡ upsert_node_sample (node_sample stamp payload) db.node_samples

module _ (accepts : Statement → Bool) where
  replace_storage_health_metrics-Ends :
      (stamp : Stamp) (ids : List (Text × Text)) (metrics : List StorageHealth)
      (rows : List (Current StorageHealthColumns))
      → All (λ m. Has ids (health_key m)) metrics
      → Ends accepts (replace_storage_health_metrics accepts stamp ids metrics rows)
  unfolding replace_storage_health_metrics
  replace_storage_health_metrics-Ends stamp ids metrics rows h =
      elim (Bool-cases (current_snapshot_can_be_replaced stamp.node_id stamp.bucket_at rows)) [
        | inl t ↦ rw t (
            execute-Outcome accepts _ check_storage_health _ (
              execute-Outcome accepts _ delete_storage_health _ (
                insert_each-Outcome accepts health_key invalid_block_device insert_storage_health
                  (storage_health_row stamp) ids metrics (delete_current stamp.node_id rows) h)))
        | inr t ↦ rw t (execute-Outcome accepts _ check_storage_health _ (inr (rows, refl, tt)))
      ]

  module _ (stamp : Stamp) (payload : Report) (db : Tables)
      (v : AreValidMetrics payload.inventory payload.metrics)
      (c : Covers stamp.node_id payload.inventory db.resources) where
    store_filesystem_samples-Ends : Ends accepts (store_filesystem_samples accepts stamp payload db)
    unfolding store_filesystem_samples active_filesystem_ids
    store_filesystem_samples-Ends =
        insert_each-Outcome accepts filesystem_metric_key invalid_filesystem insert_filesystem
          (filesystem_sample stamp) _ payload.metrics.filesystems _
          (All-map _ _
            (λ x m.
              collect-Has (λ row. row.id) stamp.node_id x.filesystem_key db.resources.filesystems []
                Nodup-nil (c.filesystems x.filesystem_key m.known_key))
            payload.metrics.filesystems v.filesystems.valid)

    store_network_samples-Ends : Ends accepts (store_network_samples accepts stamp payload db)
    unfolding store_network_samples active_interface_ids
    store_network_samples-Ends =
        insert_each-Outcome accepts interface_metric_key invalid_interface insert_interface
          (network_sample stamp) _ payload.metrics.network _
          (All-map _ _
            (λ x m.
              collect-Has (λ row. row.id) stamp.node_id x.interface_key db.resources.interfaces []
                Nodup-nil (c.interfaces x.interface_key m.known_key))
            payload.metrics.network v.network.valid)

    store_gpu_samples-Ends : Ends accepts (store_gpu_samples accepts stamp payload db)
    unfolding store_gpu_samples active_gpu_ids
    store_gpu_samples-Ends =
        insert_each-Outcome accepts gpu_metric_key invalid_gpu insert_gpu (gpu_sample stamp) _
          payload.metrics.gpus _
          (All-map _ _
            (λ x m.
              collect-Has
                (λ (row : Row GpuColumns). record {
                  id = row.id;
                  memory_total_bytes = row.columns.memory_total_bytes;
                })
                stamp.node_id x.gpu_key db.resources.gpus [] Nodup-nil
                (c.gpus x.gpu_key
                  (UsesMemory-Mem payload.inventory.gpus x.gpu_key x.memory_used_bytes m.memory)))
            payload.metrics.gpus v.gpus.valid)

    store_temperatures-Ends : Ends accepts (store_temperatures accepts stamp payload db)
    unfolding store_temperatures
    store_temperatures-Ends =
        execute_each-Outcome accepts (λ out. Unit {0})
          (check_temperatures ∷ temperature_statements accepts stamp payload db.temperatures)
          (stored (replace_temperature_metrics stamp payload.metrics.temperatures db.temperatures))
          (inr (_, refl, tt))

    store_health-Ends : Ends accepts (store_health accepts stamp payload db)
    unfolding store_health active_block_device_ids
    store_health-Ends =
        replace_storage_health_metrics-Ends stamp _ payload.metrics.storage_health db.storage_health
          (All-map _ _
            (λ x m.
              collect-Has (λ row. row.id) stamp.node_id x.block_device_key
                db.resources.block_devices [] Nodup-nil
                (c.block_devices x.block_device_key m.state.known_key))
            payload.metrics.storage_health v.storage_health.valid)

    -- Where the active resources of the node cover the inventory, no metric is of an unknown resource.
    pub store_samples-Outcome :
        Outcome accepts (IsStored stamp payload db) (store_samples accepts stamp payload db)
    unfolding store_samples
    store_samples-Outcome =
        execute_each-Outcome accepts (IsStored stamp payload db) (bucket_statements accepts) _ (
          and_then-Outcome accepts _ (IsStored stamp payload db) _ _ store_filesystem_samples-Ends
            (λ fs _.
              and_then-Outcome accepts _ (IsStored stamp payload db) _ _ store_network_samples-Ends
                (λ ns _.
                  and_then-Outcome accepts _ (IsStored stamp payload db) _ _ store_gpu_samples-Ends
                    (λ gs _.
                      and_then-Outcome accepts _ (IsStored stamp payload db) _ _
                        store_temperatures-Ends
                        (λ ts _.
                          and_then-Outcome accepts _ (IsStored stamp payload db) _ _
                            store_health-Ends
                            (λ hs _. inr (
                              _,
                              refl,
                              record { resources = refl; nodes = refl; samples = refl },
                            )))))))
