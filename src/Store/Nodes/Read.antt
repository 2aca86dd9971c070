-- ===== src/Store/Nodes/Read.antt =====
-- ListNodes, GetNode and GetNodeHistory of internal/store/query.go, over what their queries return.
use server_status.Base.{
  ℕ, Bool, true, false, not, ◌&&◌, List, [], ◌∷◌, Option, none, some, ◌⊎◌, inl, inr, if◌then◌else◌,
}
use server_status.Base.Text.{Text, codes, text_eq}
use server_status.Base.Dict.{get}
use server_status.Store.History.{HistoryQuerySpec, history_durations, history_queries}
use server_status.Store.History.Gpus.{GpuHistoryRow, query_gpu_history}
use server_status.Store.Nodes.{
  NodeSummary, FilesystemStatus, NetworkStatus, CpuHardware, MemoryHardware, BlockDeviceHardware,
  TemperatureStatus, GpuStatus, NodeDetail, HistoryPoint, NodeHistory,
}

pub data ReadError : Type 0 where
  not_found invalid_range check_failed : ReadError
  query_failed scan_failed labels_not_decoded iterate_failed : ReadError

-- A query's rows: `none` is one that cannot be scanned, and at the end `rows.Err()` is an error or not.
pub record Cursor (A : Type 0) : Type 0 where
  pub rows : List (Option A)
  pub is_broken : Bool

-- `if err != nil { return …, err }`
infixl 5 ◌>>=◌
abbrev pub ◌>>=◌ : {A B : Type 0} → ReadError ⊎ A → (A → ReadError ⊎ B) → ReadError ⊎ B
inl e >>= next = inl e
inr a >>= next = next a

module _ {A B : Type 0} (scan : A → ReadError ⊎ B) where
  unfoldable pub read_row : Option A → ReadError ⊎ B
  read_row none = inl scan_failed
  read_row (some row) = scan row

  -- The loop over the rows, which ends at the first error.
  unfoldable pub read_rows : List (Option A) → ReadError ⊎ List B
  read_rows [] = inr []
  read_rows (row ∷ rows) = do item ← read_row row; items ← read_rows rows; inr (item ∷ items)

  unfoldable pub at_end : Bool → List B → ReadError ⊎ List B
  at_end is_broken items = if is_broken then inl iterate_failed else inr items

  -- `none` where the query itself fails.
  unfoldable pub read_query : Option (Cursor A) → ReadError ⊎ List B
  read_query none = inl query_failed
  read_query (some cursor) = do items ← read_rows cursor.rows; at_end cursor.is_broken items

-- The queries whose rows are scanned into the structs as they are.
unfoldable pub list_rows : {A : Type 0} → Option (Cursor A) → ReadError ⊎ List A
list_rows {A} = read_query (λ (item : A). inr item)

abbrev pub or_empty : Option (List Text) → Option (List Text)
or_empty none = some []
or_empty (some tags) = some tags

abbrev pub is_missing {ℓ} : {A : Type ℓ} → Option A → Bool
is_missing none = true
is_missing (some a) = false

unfoldable pub normalize_node_summary : NodeSummary → NodeSummary
normalize_node_summary item = record item {
  tags = or_empty item.tags;
  status =
      if is_missing item.latest_bucket_at && not (text_eq item.status (codes "disabled"))
      then codes "pending"
      else item.status;
}

-- What is left of scanNodeSummary once the columns are scanned: json.Unmarshal of the labels, and the
-- normalisation.
unfoldable pub scan_node_summary :
    (List ℕ → Option (List (Text × Text))) → NodeSummary × List ℕ → ReadError ⊎ NodeSummary
scan_node_summary unmarshal (item, labels_json) = elim (unmarshal labels_json) [
  | none ↦ inl labels_not_decoded
  | some labels ↦ inr (normalize_node_summary (record item { labels = labels }))
]

unfoldable pub read_nodes :
    (List ℕ → Option (List (Text × Text)))
    → Option (Cursor (NodeSummary × List ℕ))
    → ReadError ⊎ List NodeSummary
read_nodes unmarshal = read_query (scan_node_summary unmarshal)

-- What QueryRow and Scan give: pgx.ErrNoRows, another error, or the row.
pub data RowResult (A : Type 0) : Type 0 where
  no_rows broken : RowResult A
  row : A → RowResult A

-- What the queries of GetNode return.
pub record NodeQueries : Type 0 where
  pub summary : RowResult (NodeSummary × List ℕ)
  pub filesystems : Option (Cursor FilesystemStatus)
  pub network : Option (Cursor NetworkStatus)
  pub cpu_packages : Option (Cursor CpuHardware)
  pub memory_modules : Option (Cursor MemoryHardware)
  pub block_devices : Option (Cursor BlockDeviceHardware)
  pub gpus : Option (Cursor GpuStatus)
  pub temperatures : Option (Cursor TemperatureStatus)

unfoldable pub read_summary :
    (List ℕ → Option (List (Text × Text)))
    → RowResult (NodeSummary × List ℕ)
    → ReadError ⊎ NodeSummary
read_summary unmarshal no_rows = inl not_found
read_summary unmarshal broken = inl scan_failed
read_summary unmarshal (row item) = scan_node_summary unmarshal item

unfoldable pub read_node :
    (List ℕ → Option (List (Text × Text))) → NodeQueries → ReadError ⊎ NodeDetail
read_node unmarshal queries = do
  summary ← read_summary unmarshal queries.summary
  filesystems ← list_rows queries.filesystems
  network ← list_rows queries.network
  cpu_packages ← list_rows queries.cpu_packages
  memory_modules ← list_rows queries.memory_modules
  block_devices ← list_rows queries.block_devices
  gpus ← list_rows queries.gpus
  temperatures ← list_rows queries.temperatures
  inr (record {
    node = summary;
    cpu_packages = cpu_packages;
    memory_modules = memory_modules;
    block_devices = block_devices;
    temperatures = temperatures;
    gpus = gpus;
    filesystems = filesystems;
    network = network;
  })

-- What the queries of GetNodeHistory return, for the texts and the arguments that it chooses; `none`
-- of `exists` is an error.
pub record HistoryQueries : Type 0 where
  pub exists : Option Bool
  pub points : HistoryQuerySpec → Option (Cursor HistoryPoint)
  pub gpus : HistoryQuerySpec → Option (Cursor GpuHistoryRow)

unfoldable pub check_exists : Option Bool → ReadError ⊎ Unit {0}
check_exists none = inl check_failed
check_exists (some true) = inr tt
check_exists (some false) = inl not_found

abbrev duration_of : Option ℕ → ReadError ⊎ ℕ
duration_of none = inl invalid_range
duration_of (some duration) = inr duration

unfoldable pub read_history : HistoryQueries → Text → Text → ReadError ⊎ NodeHistory
read_history queries node window = do
  duration ← duration_of (get window history_durations)
  found ← check_exists queries.exists
  points ← list_rows (queries.points (history_queries duration))
  gpu_rows ← list_rows (queries.gpus (history_queries duration))
  inr (record {
    node_id = node;
    range = window;
    resolution = (history_queries duration).resolution;
    points = points;
    gpus = query_gpu_history gpu_rows;
  })
