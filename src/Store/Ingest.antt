-- ===== src/Store/Ingest.antt =====
-- Ingest of internal/store/ingest.go.
pub mod Lookup
pub mod Covers
pub mod Total
pub mod Fingerprint
pub mod Exact
pub mod Reachable
use server_status.Base.{
  ℕ, ◌+◌, ◌-◌, ◌*◌, ◌/◌, Bool, not, ◌&&◌, List, [], ◌∷◌, ◌++◌, map, Option, none, some,
  if◌then◌else◌,
}
use server_status.Base.Dict.{put}
use server_status.Base.Int.{ℤ, pos, negsuc, eqb_ℤ}
use server_status.Base.Text.{Text, codes, text_eq, is_empty}
use server_status.Report.Inventory.{Inventory}
use server_status.Report.Types.{
  Report, TemperatureMetrics, AgentInfo, FilesystemMetrics, NetworkMetrics, GpuMetrics,
}
use server_status.Store.Table.{Row, Time}
use server_status.Store.Tokens.{NodeAuth}
use server_status.Store.Inventory.{
  GpuColumns, CpuPackageColumns, MemoryModuleColumns, BlockDeviceColumns, FilesystemColumns,
  null_if_empty, sync_gpus, sync_cpu_packages, sync_memory_modules, sync_block_devices,
  sync_filesystems,
}
use server_status.Store.Network.{Addresses, InterfaceColumns, AddressRow, sync_network_interfaces}
use server_status.Store.Active.{
  active_filesystem_ids, active_interface_ids, active_gpu_ids, active_block_device_ids,
}
use server_status.Store.Tables.{ReportingNode, TokenUsage, Resources, Tables, NewIds}
use server_status.Store.Samples.{
  Stamp, NodeSample, FilesystemSample, NetworkSample, GpuSample, node_sample, filesystem_sample,
  network_sample, gpu_sample,
}
use server_status.Store.Transaction.{
  Statement, encode_labels, begin_transaction, lock_reporting_node, update_reporting_node,
  update_token_usage, sync_cpu, sync_memory, sync_disks, sync_mounts, sync_network, sync_graphics,
  read_filesystems, read_interfaces, read_gpus, read_block_devices, upsert_sample,
  delete_filesystem_samples, delete_network_samples, delete_gpu_samples, insert_filesystem,
  insert_interface, insert_gpu, check_temperatures, delete_temperatures, insert_temperature, commit,
  node_not_found, invalid_filesystem, invalid_interface, invalid_gpu, Result, failed, stored,
  and_then, execute, execute_each, insert_each,
}
use server_status.Store.Snapshots.{
  Current, TemperatureColumns, StorageHealthColumns, current_snapshot_can_be_replaced,
  replace_temperature_metrics, replace_storage_health_metrics,
}

-- `entries[key] = value`, where the value is not empty
abbrev pub put_filled : Text → Text → List (Text × Text) → List (Text × Text)
put_filled key value entries = if is_empty value then entries else put key value entries

-- The loop that copies the labels.
unfoldable pub copy_labels : List (Text × Text) → List (Text × Text) → List (Text × Text)
copy_labels [] labels = labels
copy_labels ((key, value) ∷ entries) labels = copy_labels entries (put key value labels)

unfoldable pub agent_labels : AgentInfo → List (Text × Text)
unfolding copy_labels
agent_labels agent = put_filled (codes "server_status.primary_ip") agent.primary_ip (
    put_filled (codes "server_status.system_model") agent.system_model (
      put_filled (codes "server_status.machine_type") agent.machine_type
        (copy_labels agent.labels [])))

-- The nanoseconds of a minute.
abbrev pub minute : ℕ
minute = 60000000000

-- `t.Truncate(time.Minute)`, down since the zero time.
unfoldable pub truncate_minute : Time → Time
truncate_minute (pos n) = pos (n / minute * minute)
truncate_minute (negsuc n) = negsuc (n / minute * minute + (minute - 1))

-- `SELECT COALESCE(inventory_fingerprint, '') … FOR UPDATE`
unfoldable pub lock_node : Text → List ReportingNode → Option Text
lock_node id [] = none
lock_node id (node ∷ nodes) =
    if text_eq node.id id then some (coalesce node.inventory_fingerprint) else lock_node id nodes
  where
    coalesce : Option Text → Text
    coalesce none = []
    coalesce (some f) = f

unfoldable pub update_node : Text → Report → Time → List ReportingNode → List ReportingNode
unfolding agent_labels
update_node id payload received_at [] = []
update_node id payload received_at (node ∷ nodes) =
    let rest = update_node id payload received_at nodes in
    let agent = payload.agent in
    if text_eq node.id id
    then (record node {
      hostname = agent.hostname;
      os_name = agent.os_name;
      os_version = null_if_empty agent.os_version;
      kernel_version = null_if_empty agent.kernel_version;
      architecture = agent.architecture;
      agent_version = agent.agent_version;
      labels = agent_labels agent;
      inventory_fingerprint = some payload.inventory_fingerprint;
      last_seen_at = some received_at;
      updated_at = received_at;
    })
      ∷ rest
    else node ∷ rest

unfoldable pub update_token : Text → Time → List TokenUsage → List TokenUsage
update_token id received_at [] = []
update_token id received_at (token ∷ tokens) =
    let rest = update_token id received_at tokens in
    if text_eq token.id id
    then (record token { last_used_at = some received_at }) ∷ rest
    else token ∷ rest

-- `bucket_at = $1 AND node_id = $2`
abbrev pub in_bucket : Time → Text → Stamp → Bool
in_bucket bucket node stamp = eqb_ℤ bucket stamp.bucket_at && text_eq node stamp.node_id

-- The rows that `DELETE … WHERE bucket_at = $1 AND node_id = $2` leaves.
unfoldable pub delete_samples : {R : Type 0} → (R → Time) → (R → Text) → Stamp → List R → List R
delete_samples bucket node stamp [] = []
delete_samples bucket node stamp (row ∷ rows) =
    let rest = delete_samples bucket node stamp rows in
    if in_bucket (bucket row) (node row) stamp then rest else row ∷ rest

-- INSERT … ON CONFLICT (bucket_at, node_id) DO UPDATE
unfoldable pub upsert_node_sample : NodeSample → List NodeSample → List NodeSample
upsert_node_sample sample [] = sample ∷ []
upsert_node_sample sample (row ∷ rows) =
    let rest = upsert_node_sample sample rows in
    if in_bucket row.stamp.bucket_at row.stamp.node_id sample.stamp
    then sample ∷ rows
    else row ∷ rest

abbrev pub filesystem_metric_key : FilesystemMetrics → Text
filesystem_metric_key metric = metric.filesystem_key

abbrev pub interface_metric_key : NetworkMetrics → Text
interface_metric_key metric = metric.interface_key

abbrev pub gpu_metric_key : GpuMetrics → Text
gpu_metric_key metric = metric.gpu_key

-- `accepts` says which calls of a run succeed.
module _ (accepts : Statement → Bool) where
  -- The loops that replace the samples of a bucket.
  unfoldable pub store_filesystem_samples : Stamp → Report → Tables → Result (List FilesystemSample)
  unfolding delete_samples
  store_filesystem_samples stamp payload db =
      insert_each accepts filesystem_metric_key invalid_filesystem insert_filesystem
        (filesystem_sample stamp) (active_filesystem_ids stamp.node_id db.resources.filesystems)
        payload.metrics.filesystems
        (delete_samples (λ row. row.bucket_at) (λ row. row.node_id) stamp db.filesystem_samples)

  unfoldable pub store_network_samples : Stamp → Report → Tables → Result (List NetworkSample)
  unfolding delete_samples
  store_network_samples stamp payload db =
      insert_each accepts interface_metric_key invalid_interface insert_interface
        (network_sample stamp) (active_interface_ids stamp.node_id db.resources.interfaces)
        payload.metrics.network
        (delete_samples (λ row. row.bucket_at) (λ row. row.node_id) stamp db.network_samples)

  unfoldable pub store_gpu_samples : Stamp → Report → Tables → Result (List GpuSample)
  unfolding delete_samples
  store_gpu_samples stamp payload db =
      insert_each accepts gpu_metric_key invalid_gpu insert_gpu (gpu_sample stamp)
        (active_gpu_ids stamp.node_id db.resources.gpus) payload.metrics.gpus
        (delete_samples (λ row. row.bucket_at) (λ row. row.node_id) stamp db.gpu_samples)

  -- The calls of replaceTemperatureMetrics behind its check.
  abbrev pub temperature_statements :
      Stamp → Report → List (Current TemperatureColumns) → List Statement
  temperature_statements stamp payload rows =
      if current_snapshot_can_be_replaced stamp.node_id stamp.bucket_at rows
      then delete_temperatures
        ∷ map (λ (metric : TemperatureMetrics). insert_temperature metric.key)
            payload.metrics.temperatures
      else []

  unfoldable pub store_temperatures :
      Stamp → Report → Tables → Result (List (Current TemperatureColumns))
  unfolding execute_each current_snapshot_can_be_replaced
  store_temperatures stamp payload db =
      execute_each accepts
        (check_temperatures ∷ temperature_statements stamp payload db.temperatures)
        (stored (replace_temperature_metrics stamp payload.metrics.temperatures db.temperatures))

  unfoldable pub store_health :
      Stamp → Report → Tables → Result (List (Current StorageHealthColumns))
  store_health stamp payload db =
      replace_storage_health_metrics accepts stamp
        (active_block_device_ids stamp.node_id db.resources.block_devices)
        payload.metrics.storage_health db.storage_health

  abbrev pub bucket_statements : List Statement
  bucket_statements =
      upsert_sample ∷ delete_filesystem_samples ∷ delete_network_samples ∷ delete_gpu_samples ∷ []

  -- The statements behind the inventory: the samples of the report and the snapshots.
  unfoldable pub store_samples : Stamp → Report → Tables → Result Tables
  unfolding upsert_node_sample store_filesystem_samples store_network_samples store_gpu_samples
      store_temperatures store_health execute_each
  store_samples stamp payload db = execute_each accepts bucket_statements (
      and_then (store_filesystem_samples stamp payload db) (λ filesystem_samples.
        and_then (store_network_samples stamp payload db) (λ network_samples.
          and_then (store_gpu_samples stamp payload db) (λ gpu_samples.
            and_then (store_temperatures stamp payload db) (λ temperatures.
              and_then (store_health stamp payload db) (λ storage_health. stored (record db {
                node_samples = upsert_node_sample (node_sample stamp payload) db.node_samples;
                filesystem_samples = filesystem_samples;
                network_samples = network_samples;
                gpu_samples = gpu_samples;
                temperatures = temperatures;
                storage_health = storage_health;
              })))))))

unfoldable pub report_stamp : NodeAuth → Report → Time → Stamp
unfolding truncate_minute
report_stamp auth payload received_at = record {
  bucket_at = truncate_minute payload.collected_at;
  node_id = auth.node_id;
  collected_at = payload.collected_at;
  received_at = received_at;
}

module _ (net : Addresses) (new : NewIds) where
  unfoldable pub sync_inventory : Text → Inventory → Time → Resources → Resources
  sync_inventory node inventory at r =
      let (interfaces, addresses) =
        sync_network_interfaces net new.interface new.address node inventory.network_interfaces at
          r.interfaces r.addresses in
      record {
        cpu_packages =
            sync_cpu_packages new.cpu_package node inventory.cpu_packages at r.cpu_packages;
        memory_modules =
            sync_memory_modules new.memory_module node inventory.memory_modules at r.memory_modules;
        block_devices =
            sync_block_devices new.block_device node inventory.block_devices at r.block_devices;
        filesystems = sync_filesystems new.filesystem node inventory.filesystems at r.filesystems;
        interfaces = interfaces;
        addresses = addresses;
        gpus = sync_gpus new.gpu node inventory.gpus at r.gpus;
      }

  -- The node and the token are marked, and the inventory is synced where its fingerprint is new.
  unfoldable pub mark_and_sync : NodeAuth → Report → Time → Text → Tables → Tables
  unfolding update_node update_token sync_inventory
  mark_and_sync auth payload received_at fingerprint db = record db {
    nodes = update_node auth.node_id payload received_at db.nodes;
    tokens = update_token auth.token_id received_at db.tokens;
    resources =
        if text_eq fingerprint payload.inventory_fingerprint
        then db.resources
        else sync_inventory auth.node_id payload.inventory received_at db.resources;
  }

  -- The calls from the lock to the samples: the sync functions only where the fingerprint is new.
  abbrev pub statements : Report → Text → List Statement
  statements payload fingerprint =
      update_reporting_node
      ∷ update_token_usage
      ∷ ((if text_eq fingerprint payload.inventory_fingerprint
            then []
            else sync_cpu ∷ sync_memory ∷ sync_disks ∷ sync_mounts ∷ sync_network ∷ sync_graphics
              ∷ [])
          ++ (read_filesystems ∷ read_interfaces ∷ read_gpus ∷ read_block_devices ∷ []))

  -- Ingest, where `accepts` says which of its calls succeed. A `failed` transaction is rolled back and
  -- leaves the tables as they were.
  unfoldable pub ingest : (Statement → Bool) → NodeAuth → Report → Time → Tables → Result Tables
  unfolding lock_node mark_and_sync report_stamp store_samples execute_each execute
  ingest accepts auth payload received_at db =
      execute_each accepts (encode_labels ∷ begin_transaction ∷ lock_reporting_node ∷ [])
        (elim (lock_node auth.node_id db.nodes) [
          | none ↦ failed node_not_found
          | some fingerprint ↦ execute_each accepts (statements payload fingerprint) (
              and_then
                (store_samples accepts (report_stamp auth payload received_at) payload
                  (mark_and_sync auth payload received_at fingerprint db))
                (λ out. execute accepts commit (stored out)))
        ])
