-- ===== src/Agent/Collector.antt =====
-- internal/agent/collector.go: what is computed from the readings of the system.
use server_status.Base.{
  ℕ, ◌+◌, ◌-◌, ◌%◌, ◌^◌, ◌≤◌, ◌<◌, List, [], ◌∷◌, ◌++◌, Bool, true, false, Option, none, some,
  if◌then◌else◌, ltb, ◌≡◌, refl, arith,
}
use server_status.Base.Dict.{get, put}
use server_status.Base.Text.{
  Text, codes, trim_space, is_empty, has_prefix, contains, to_lower, equal_fold,
}
use server_status.Report.Hardware.Rules.{device_kinds}
use server_status.Report.Types.{DiskMetrics}

-- A counter that has gone back has started again.
unfoldable pub counter_delta : ℕ → ℕ → ℕ
counter_delta current previous = if ltb current previous then 0 else current - previous

-- disk.IOCountersStat, as far as it is read.
pub record DiskCounters : Type 0 where
  pub read_bytes : ℕ
  pub write_bytes : ℕ
  pub read_count : ℕ
  pub write_count : ℕ

-- `a += b` on a uint64
abbrev pub add_uint64 : ℕ → ℕ → ℕ
add_uint64 a b = (a + b) % 2 ^ 64

unfoldable pub add_totals : DiskCounters → DiskMetrics → DiskMetrics
add_totals current metric = record metric {
  read_bytes_total = add_uint64 metric.read_bytes_total current.read_bytes;
  write_bytes_total = add_uint64 metric.write_bytes_total current.write_bytes;
}

-- `none` is a disk that was not there before.
unfoldable pub add_deltas : DiskCounters → Option DiskCounters → DiskMetrics → DiskMetrics
unfolding counter_delta
add_deltas current none metric = metric
add_deltas current (some previous) metric = record metric {
  read_bytes_delta =
      add_uint64 metric.read_bytes_delta (counter_delta current.read_bytes previous.read_bytes);
  write_bytes_delta =
      add_uint64 metric.write_bytes_delta (counter_delta current.write_bytes previous.write_bytes);
  read_ops_delta =
      add_uint64 metric.read_ops_delta (counter_delta current.read_count previous.read_count);
  write_ops_delta =
      add_uint64 metric.write_ops_delta (counter_delta current.write_count previous.write_count);
}

-- The metric, and previousByName afterwards.
abbrev DiskState : Type 0
DiskState = DiskMetrics × List (Text × DiskCounters)

unfoldable pub add_disk : Text → Option DiskCounters → DiskState → DiskState
unfolding add_totals add_deltas
add_disk name none state = state
add_disk name (some current) (metric, previous) =
    (add_deltas current (get name previous) (add_totals current metric), put name current previous)

unfoldable pub add_disks : List Text → List (Text × DiskCounters) → DiskState → DiskState
unfolding add_disk
add_disks [] counters state = state
add_disks (name ∷ names) counters state =
    add_disks names counters (add_disk name (get name counters) state)

abbrev no_metrics : DiskMetrics
no_metrics = record {
  read_bytes_total = 0;
  write_bytes_total = 0;
  read_bytes_delta = 0;
  write_bytes_delta = 0;
  read_ops_delta = 0;
  write_ops_delta = 0;
}

unfoldable pub aggregate_disk_counters :
    List (Text × DiskCounters) → List Text → List (Text × DiskCounters) → DiskState
aggregate_disk_counters previous names counters = add_disks names counters (no_metrics, previous)

unfoldable pub clean_dmi_value : Text → Text
clean_dmi_value value =
    let trimmed = trim_space value in
    if contains
      (codes ""
        ∷ codes "unknown"
        ∷ codes "not specified"
        ∷ codes "no module installed"
        ∷ codes "none"
        ∷ codes "to be filled by o.e.m."
        ∷ [])
      (to_lower trimmed)
    then []
    else trimmed

unfoldable pub format_system_model : Text → Text → Text
unfolding clean_dmi_value
format_system_model product_name product_sku =
    let name = clean_dmi_value product_name in
    let sku = clean_dmi_value product_sku in
    if is_empty name
    then []
    else if is_empty sku
    then name
    else name ++ codes " -[" ++ sku ++ codes "]-"

unfoldable pub fallback_block_model : Text → Text → Text
fallback_block_model name vendor =
    let trimmed = trim_space vendor in
    if equal_fold trimmed (codes "0x1af4")
    then codes "Virtio Block Device (" ++ name ++ codes ")"
    else if is_empty trimmed
    then codes "Block Device (" ++ name ++ codes ")"
    else trimmed ++ codes " Block Device (" ++ name ++ codes ")"

unfoldable pub block_device_kind : Text → Text
block_device_kind name =
    if has_prefix name (codes "md")
    then codes "raid"
    else if has_prefix name (codes "dm-")
    then codes "virtual"
    else if has_prefix name (codes "mpath")
    then codes "multipath"
    else codes "disk"

-- The kind of a block device is one that the server accepts.
pub block_device_kind-accepted :
    (name : Text) → contains device_kinds (block_device_kind name) ≡ true
unfolding block_device_kind contains
block_device_kind-accepted name =
    pick (has_prefix name (codes "md")) (has_prefix name (codes "dm-"))
      (has_prefix name (codes "mpath"))
  where
    pick :
        (a b c : Bool)
        → contains device_kinds (
            if a
            then codes "raid"
            else if b
            then codes "virtual"
            else if c
            then codes "multipath"
            else codes "disk")
          ≡ true
    pick true b c = refl
    pick false true c = refl
    pick false false true = refl
    pick false false false = refl

-- The bytes that the disks have read and written, counted without a limit.
unfoldable pub bytes_of : Option DiskCounters → ℕ
bytes_of none = 0
bytes_of (some current) = current.read_bytes + current.write_bytes

unfoldable pub all_bytes : List Text → List (Text × DiskCounters) → ℕ
unfolding bytes_of
all_bytes [] counters = 0
all_bytes (name ∷ names) counters = bytes_of (get name counters) + all_bytes names counters

counter_delta-le : (current previous : ℕ) → counter_delta current previous ≤ current
unfolding counter_delta
counter_delta-le current previous = ground arith

pub record HasBoundedDeltas (metric : DiskMetrics) : Type 0 where
  pub read : metric.read_bytes_delta ≤ metric.read_bytes_total
  pub write : metric.write_bytes_delta ≤ metric.write_bytes_total

abbrev total_bytes : DiskMetrics → ℕ
total_bytes metric = metric.read_bytes_total + metric.write_bytes_total

-- A sum that fits does not wrap around.
add_uint64-exact : (a b : ℕ) → a + b < 2 ^ 64 → add_uint64 a b ≡ a + b
add_uint64-exact a b h = omega (arith, h)

record IsStep (metric after : DiskMetrics) (bytes : ℕ) : Type 0 where
  bounded : HasBoundedDeltas after
  total : total_bytes after ≡ total_bytes metric + bytes

add_disk-IsStep :
    (name : Text) (current : Option DiskCounters) (metric : DiskMetrics)
    (previous : List (Text × DiskCounters))
    → HasBoundedDeltas metric
    → total_bytes metric + bytes_of current < 2 ^ 64
    → IsStep metric (add_disk name current (metric, previous)).0 (bytes_of current)
unfolding add_disk bytes_of add_deltas add_totals
add_disk-IsStep name none metric previous w h = record { bounded = w; total = omega arith }
add_disk-IsStep name (some current) metric previous w h = from (get name previous)
  where
    from :
        (o : Option DiskCounters)
        → IsStep metric (add_deltas current o (add_totals current metric)) (bytes_of (some current))
    from none = record {
      bounded = record { read = omega (arith, w.read, h); write = omega (arith, w.write, h) };
      total = omega (arith, h);
    }
    from (some p) =
        let reads = counter_delta-le current.read_bytes p.read_bytes in
        let writes = counter_delta-le current.write_bytes p.write_bytes in
        record {
          bounded = record {
            read = omega (arith, w.read, h, reads);
            write = omega (arith, w.write, h, writes);
          };
          total = omega (arith, h);
        }

add_disks-HasBoundedDeltas :
    (names : List Text) (counters : List (Text × DiskCounters)) (metric : DiskMetrics)
    (previous : List (Text × DiskCounters))
    → HasBoundedDeltas metric
    → total_bytes metric + all_bytes names counters < 2 ^ 64
    → HasBoundedDeltas (add_disks names counters (metric, previous)).0
unfolding add_disks all_bytes
add_disks-HasBoundedDeltas [] counters metric previous w h = w
add_disks-HasBoundedDeltas (name ∷ names) counters metric previous w h =
    let step = add_disk-IsStep name (get name counters) metric previous w (omega (arith, h)) in
    let total = step.total in
    add_disks-HasBoundedDeltas names counters
      (add_disk name (get name counters) (metric, previous)).0
      (add_disk name (get name counters) (metric, previous)).1 step.bounded
      (omega (arith, h, total))

-- While the bytes of all disks are fewer than 2^64, no more bytes are reported since the last report
-- than in total.
pub aggregate_disk_counters-HasBoundedDeltas :
    (previous : List (Text × DiskCounters)) (names : List Text)
    (counters : List (Text × DiskCounters))
    → all_bytes names counters < 2 ^ 64
    → HasBoundedDeltas (aggregate_disk_counters previous names counters).0
unfolding aggregate_disk_counters
aggregate_disk_counters-HasBoundedDeltas previous names counters h =
    add_disks-HasBoundedDeltas names counters no_metrics previous
      (record { read = omega arith; write = omega arith }) (omega (arith, h))
