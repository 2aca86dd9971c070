-- ===== src/Store/Ingest/Exact.antt =====
-- The sample of a node that Ingest of internal/store/ingest.go stores has the numbers of the report.
use server_status.Base.{
  ℕ, List, [], ◌∷◌, true, Option, none, some, ◌≡◌, refl, inl, inr, arith, Bool-cases, if◌then◌else◌,
}
use server_status.Base.Int.{pos, to_int64, to_int64_exact, eqb_ℤ_iff}
use server_status.Base.Text.{text_eq_refl}
use server_status.Report.Types.{Report}
use server_status.Report.Bigint.{Fits}
use server_status.Report.Measurements.Check.{AreValidMetrics}
use server_status.Store.Samples.{Stamp, NodeSample, node_sample}
use server_status.Store.Ingest.{in_bucket, upsert_node_sample}

to_int64-Fits : (n : ℕ) → Fits n → to_int64 n ≡ pos n
to_int64-Fits n h = to_int64_exact n (omega (arith, h))

-- The sample with the numbers of the report as they are.
abbrev pub exact_sample : Stamp → Report → NodeSample
exact_sample stamp payload =
    let memory = payload.metrics.memory in
    let cpu = payload.metrics.cpu in
    let disk = payload.metrics.disk in
    record {
      stamp = stamp;
      interval_seconds = payload.interval_seconds;
      cpu_usage_percent = cpu.usage_percent;
      load_1 = cpu.load_1;
      load_5 = cpu.load_5;
      load_15 = cpu.load_15;
      memory_total_bytes = pos memory.total_bytes;
      memory_used_bytes = pos memory.used_bytes;
      memory_available_bytes = pos memory.available_bytes;
      memory_cached_bytes = pos memory.cached_bytes;
      memory_buffers_bytes = pos memory.buffers_bytes;
      swap_total_bytes = pos memory.swap_total_bytes;
      swap_used_bytes = pos memory.swap_used_bytes;
      uptime_seconds = pos memory.uptime_seconds;
      disk_read_bytes_total = pos disk.read_bytes_total;
      disk_write_bytes_total = pos disk.write_bytes_total;
      disk_read_bytes_delta = pos disk.read_bytes_delta;
      disk_write_bytes_delta = pos disk.write_bytes_delta;
      disk_read_ops_delta = pos disk.read_ops_delta;
      disk_write_ops_delta = pos disk.write_ops_delta;
    }

pub node_sample-exact :
    (stamp : Stamp) (payload : Report)
    → AreValidMetrics payload.inventory payload.metrics
    → node_sample stamp payload ≡ exact_sample stamp payload
unfolding node_sample
node_sample-exact stamp payload v =
    let m = v.memory in
    let d = v.disk in
    λ i. record {
      stamp = stamp;
      interval_seconds = payload.interval_seconds;
      cpu_usage_percent = payload.metrics.cpu.usage_percent;
      load_1 = payload.metrics.cpu.load_1;
      load_5 = payload.metrics.cpu.load_5;
      load_15 = payload.metrics.cpu.load_15;
      memory_total_bytes = to_int64-Fits _ m.total i;
      memory_used_bytes =
          to_int64-Fits payload.metrics.memory.used_bytes (omega (arith, m.used, m.total)) i;
      memory_available_bytes =
          to_int64-Fits payload.metrics.memory.available_bytes (omega (arith, m.available, m.total))
            i;
      memory_cached_bytes =
          to_int64-Fits payload.metrics.memory.cached_bytes (omega (arith, m.cached, m.total)) i;
      memory_buffers_bytes =
          to_int64-Fits payload.metrics.memory.buffers_bytes (omega (arith, m.buffers, m.total)) i;
      swap_total_bytes = to_int64-Fits _ m.swap_total i;
      swap_used_bytes =
          to_int64-Fits payload.metrics.memory.swap_used_bytes
            (omega (arith, m.swap_used, m.swap_total)) i;
      uptime_seconds = to_int64-Fits _ m.uptime i;
      disk_read_bytes_total = to_int64-Fits _ d.read_total i;
      disk_write_bytes_total = to_int64-Fits _ d.write_total i;
      disk_read_bytes_delta = to_int64-Fits _ d.read_delta i;
      disk_write_bytes_delta = to_int64-Fits _ d.write_delta i;
      disk_read_ops_delta = to_int64-Fits _ d.read_ops i;
      disk_write_ops_delta = to_int64-Fits _ d.write_ops i;
    }

-- The sample of a node in a bucket.
unfoldable pub find_sample : Stamp → List NodeSample → Option NodeSample
find_sample stamp [] = none
find_sample stamp (row ∷ rows) =
    if in_bucket row.stamp.bucket_at row.stamp.node_id stamp
    then some row
    else find_sample stamp rows

in_bucket_self : (stamp : Stamp) → in_bucket stamp.bucket_at stamp.node_id stamp ≡ true
in_bucket_self stamp =
    ground (arith, text_eq_refl stamp.node_id, eqb_ℤ_iff stamp.bucket_at stamp.bucket_at)

pub find_sample-upsert_node_sample :
    (sample : NodeSample) (rows : List NodeSample)
    → find_sample sample.stamp (upsert_node_sample sample rows) ≡ some sample
unfolding find_sample upsert_node_sample
find_sample-upsert_node_sample sample [] = rw (in_bucket_self sample.stamp) refl
find_sample-upsert_node_sample sample (row ∷ rows) =
    elim (Bool-cases (in_bucket row.stamp.bucket_at row.stamp.node_id sample.stamp)) [
      | inl h ↦ rw (h, in_bucket_self sample.stamp) refl
      | inr h ↦ rw (h, h) (find_sample-upsert_node_sample sample rows)
    ]
