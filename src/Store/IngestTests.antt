-- ===== src/Store/IngestTests.antt =====
-- Runs of Ingest of internal/store/ingest.go, and its theorems at a concrete report.
use mathlib.Core.Path.{ap}
use mathlib.Core.List.{Mem}
use server_status.Base.{
  ℕ, Bool, false, All, ◌⊎◌, List, [], ◌∷◌, Option, none, some, refl, sym, ◌≡◌, ◌≢◌, ◌∙◌, true, inl,
  inr, Bool-cases, arith,
}
use server_status.Base.Int.{pos}
use server_status.Base.Text.{Text, codes, text_eq}
use server_status.Report.Inventory.{Inventory, Filesystem, NetworkInterface, Gpu, BlockDevice}
use server_status.Base.Float.{of_nat}
use server_status.Report.Types.{Report, TemperatureMetrics}
use server_status.Report.Platform.{Platform}
use server_status.Report.Normalize.{inventory_fingerprint}
use server_status.Report.Validate.{validate}
use server_status.Report.Sample.{sample, noon, filesystem, hardware, program}
use server_status.Store.Tokens.{NodeAuth}
use server_status.Store.Network.{Addresses}
use server_status.Store.Tables.{Tables, NewIds}
use server_status.Store.History.Gpus.{GpuHistoryRow, query_gpu_history, points_at, points_of}
use server_status.Store.History.Grouped.{query_gpu_history-points_at}
use server_status.Store.Samples.{Stamp}
use server_status.Store.Transaction.{
  Statement, upsert_sample, statement_failed, failed, stored, execute, execute_each,
}
use server_status.Store.Snapshots.{
  temperature_row, Current, TemperatureColumns, replace_temperature_metrics,
}
use server_status.Store.Snapshots.Latest.{
  IsLater, IsNotLater, rows_of, replace_temperature_metrics-rows_of,
}
use server_status.Store.Ingest.{lock_node, ingest, store_samples}
use server_status.Store.Ingest.Fingerprint.{IsFaithful}
use server_status.Store.Ingest.Covers.{Covers}
use server_status.Store.Ingest.Reachable.{Reachable, start, ingest_total, report, Reachable-Covers}

-- A document for the inventories with one filesystem and none of what other metrics name: its key.
abbrev one_key :
    List Filesystem → List NetworkInterface → List Gpu → List BlockDevice → Option (List ℕ)
one_key (f ∷ []) [] [] [] = some f.key
one_key _ _ _ _ = none

abbrev honest : Platform
honest = record {
  is_ip = λ s. true;
  is_cidr = λ s. true;
  marshal = λ i. one_key i.filesystems i.network_interfaces i.gpus i.block_devices;
  sha256_hex = λ bytes. 1 ∷ bytes;
}

abbrev with_key : Text → Inventory
with_key a = record (hardware a a) { filesystems = filesystem a ∷ [] }

abbrev small : Report
small = record sample { inventory = with_key (codes "a"); inventory_fingerprint = 1 ∷ codes "a" }

small_accepted : (validate honest noon small).0 ≡ none
unfolding program
small_accepted = refl

abbrev net : Addresses
net = record { parse_mac = λ s. none; same_inet = text_eq }

abbrev new : NewIds
new = record {
  cpu_package = λ rows. codes "c";
  memory_module = λ rows. codes "m";
  block_device = λ rows. codes "b";
  filesystem = λ rows. codes "f";
  interface = λ rows. codes "i";
  address = λ rows. codes "d";
  gpu = λ rows. codes "g";
}

abbrev empty : Tables
empty = record {
  nodes =
      (record {
        id = codes "n";
        hostname = [];
        os_name = [];
        os_version = none;
        kernel_version = none;
        architecture = [];
        agent_version = [];
        labels = [];
        inventory_fingerprint = none;
        last_seen_at = none;
        updated_at = noon;
      })
      ∷ [];
  tokens = [];
  resources = record {
    cpu_packages = [];
    memory_modules = [];
    block_devices = [];
    filesystems = [];
    interfaces = [];
    addresses = [];
    gpus = [];
  };
  node_samples = [];
  filesystem_samples = [];
  network_samples = [];
  gpu_samples = [];
  temperatures = [];
  storage_health = [];
}

abbrev auth : NodeAuth
auth = record { token_id = codes "t"; node_id = codes "n"; agent_id = codes "a" }

known : lock_node auth.node_id empty.nodes ≡ some []
unfolding lock_node text_eq
known = refl

one_key-some :
    (fs : List Filesystem) (is : List NetworkInterface) (gs : List Gpu) (bs : List BlockDevice)
    (bytes : List ℕ)
    → one_key fs is gs bs ≡ some bytes
    → (f : Filesystem) × (fs ≡ f ∷ []) × (f.key ≡ bytes) × (is ≡ []) × (gs ≡ []) × (bs ≡ [])
one_key-some [] is gs bs bytes e = absurd (ground (arith, e))
one_key-some (f ∷ []) [] [] [] bytes e = (f, refl, ground (arith, e), refl, refl, refl)
one_key-some (f ∷ []) [] [] (b ∷ bs) bytes e = absurd (ground (arith, e))
one_key-some (f ∷ []) [] (g ∷ gs) bs bytes e = absurd (ground (arith, e))
one_key-some (f ∷ []) (i ∷ is) gs bs bytes e = absurd (ground (arith, e))
one_key-some (f ∷ g ∷ fs) is gs bs bytes e = absurd (ground (arith, e))

honest-IsFaithful : IsFaithful honest
honest-IsFaithful = record {
  filled = λ bytes q. cc;
  collision_free = λ s t q. cc;
  injective = λ a b bytes ea eb.
      let (f, ff, fk, fi, fg, fb) =
        one_key-some a.filesystems a.network_interfaces a.gpus a.block_devices bytes ea in
      let (g, gf, gk, gi, gg, gb) =
        one_key-some b.filesystems b.network_interfaces b.gpus b.block_devices bytes eb in
      record {
        filesystems = rw (ff, gf) (ap (λ k. k ∷ []) (fk ∙ sym gk));
        interfaces = rw (fi, gi) refl;
        gpus = rw (fg, gg) refl;
        block_devices = rw (fb, gb) refl;
      };
}

small_fingerprint : inventory_fingerprint honest small.inventory ≡ some small.inventory_fingerprint
unfolding program
small_fingerprint = refl

registered_only : Reachable honest net new empty
unfolding lock_node text_eq
registered_only = start (λ id print e. elim (Bool-cases (text_eq (codes "n") id)) [
  | inl h ↦ ground (arith, rw h at e)
  | inr h ↦ absurd (ground (arith, rw h at e))
])

-- A run where no call fails, and one where the sample is refused.
abbrev always : Statement → Bool
always s = true

abbrev without_sample : Statement → Bool
without_sample upsert_sample = false
without_sample _ = true

refused :
    ingest net new without_sample auth small noon empty ≡ failed (statement_failed upsert_sample)
unfolding program ingest lock_node execute execute_each store_samples
refused = refl

not_refused : true ≡ false → ⊥
not_refused h = ground (arith, h)

-- The tables behind the run.
abbrev ran :
    (out : Tables) × (ingest net new always auth small noon empty ≡ stored out)
    × (lock_node auth.node_id out.nodes ≡ some small.inventory_fingerprint)
ran =
    elim (ingest_total honest net new honest-IsFaithful empty always auth small noon noon []
      registered_only small_accepted known) [
        | inl (s, h, e) ↦ absurd (not_refused h)
        | inr (out, e, m, x) ↦ (out, e, m)
      ]

Reachable-Covers_example : Covers auth.node_id small.inventory ran.0.resources
Reachable-Covers_example =
    Reachable-Covers honest net new honest-IsFaithful ran.0
      (report registered_only always auth small noon noon small_accepted ran.1) auth.node_id
      small.inventory_fingerprint small.inventory ran.2 small_fingerprint

abbrev stamp_at : ℕ → Stamp
stamp_at bucket = record {
  bucket_at = pos bucket;
  node_id = codes "n";
  collected_at = pos bucket;
  received_at = pos bucket;
}

abbrev reading : TemperatureMetrics
reading = record {
  key = codes "k";
  component = codes "cpu";
  label = codes "package";
  temperature_celsius = of_nat 50;
  high_celsius = none;
  critical_celsius = none;
}

other_node : codes "m" ≢ codes "n"
other_node h = absurd (ground (arith, h))

replace_temperature_metrics-rows_of_example :
    ((((row : Current TemperatureColumns) × Mem row (temperature_row (stamp_at 2) reading ∷ [])
          × IsLater (codes "n") (pos 1) row)
        × (rows_of (codes "n") (
              replace_temperature_metrics
                (stamp_at 1)
                (reading ∷ [])
                (temperature_row (stamp_at 2) reading ∷ []))
            ≡ rows_of (codes "n") (temperature_row (stamp_at 2) reading ∷ [])))
      ⊎ (All (IsNotLater (codes "n") (pos 1)) (temperature_row (stamp_at 2) reading ∷ [])
          × (rows_of (codes "n") (
                replace_temperature_metrics
                  (stamp_at 1)
                  (reading ∷ [])
                  (temperature_row (stamp_at 2) reading ∷ []))
              ≡ temperature_row (stamp_at 1) reading ∷ [])))
    × (rows_of (codes "m") (
          replace_temperature_metrics
            (stamp_at 1)
            (reading ∷ [])
            (temperature_row (stamp_at 2) reading ∷ []))
        ≡ rows_of (codes "m") (temperature_row (stamp_at 2) reading ∷ []))
replace_temperature_metrics-rows_of_example =
    replace_temperature_metrics-rows_of (stamp_at 1) (reading ∷ [])
      (temperature_row (stamp_at 2) reading ∷ []) (codes "m") other_node

abbrev gpu_row : Text → ℕ → GpuHistoryRow
gpu_row id minutes = record {
  device_id = id;
  device_index = pos 0;
  uuid = [];
  model_name = [];
  point = record {
    bucket_at = pos minutes;
    utilization_percent = of_nat 1;
    memory_usage_percent = of_nat 2;
  };
}

abbrev gpu_rows : List GpuHistoryRow
gpu_rows = gpu_row (codes "g") 1 ∷ gpu_row (codes "h") 1 ∷ gpu_row (codes "g") 2 ∷ []

query_gpu_history-points_at_example :
    points_at (codes "g") (query_gpu_history gpu_rows) ≡ points_of (codes "g") gpu_rows
query_gpu_history-points_at_example = query_gpu_history-points_at (codes "g") gpu_rows
