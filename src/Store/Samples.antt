-- ===== src/Store/Samples.antt =====
-- The rows that Ingest of internal/store/ingest.go makes of the metrics of a report.
use server_status.Base.{Bool, Option, none, some, ◌==◌, if◌then◌else◌}
use server_status.Base.Float.{Float}
use server_status.Base.Int.{ℤ, to_int64}
use server_status.Base.Text.{Text}
use server_status.Report.Types.{Report, FilesystemMetrics, NetworkMetrics, GpuMetrics}
use server_status.Store.Table.{Time}
use server_status.Store.Active.{ActiveGpu}

-- The bucket, the node and the two times that every row of one report shares.
pub record Stamp : Type 0 where
  pub bucket_at : Time
  pub node_id : Text
  pub collected_at : Time
  pub received_at : Time

-- monitoring.node_metric_samples
pub record NodeSample : Type 0 where
  pub stamp : Stamp
  pub interval_seconds : ℤ
  pub cpu_usage_percent : Float
  pub load_1 : Float
  pub load_5 : Float
  pub load_15 : Float
  pub memory_total_bytes : ℤ
  pub memory_used_bytes : ℤ
  pub memory_available_bytes : ℤ
  pub memory_cached_bytes : ℤ
  pub memory_buffers_bytes : ℤ
  pub swap_total_bytes : ℤ
  pub swap_used_bytes : ℤ
  pub uptime_seconds : ℤ
  pub disk_read_bytes_total : ℤ
  pub disk_write_bytes_total : ℤ
  pub disk_read_bytes_delta : ℤ
  pub disk_write_bytes_delta : ℤ
  pub disk_read_ops_delta : ℤ
  pub disk_write_ops_delta : ℤ

unfoldable pub node_sample : Stamp → Report → NodeSample
node_sample stamp payload =
    let memory = payload.metrics.memory in
    let cpu = payload.metrics.cpu in
    let disk = payload.metrics.disk in
    record {
      stamp = stamp;
      interval_seconds = payload.interval_seconds;
      cpu_usage_percent = cpu.usage_percent;
      load_1 = cpu.load_1;
      load_5 = cpu.load_5;
      load_15 = cpu.load_15;
      memory_total_bytes = to_int64 memory.total_bytes;
      memory_used_bytes = to_int64 memory.used_bytes;
      memory_available_bytes = to_int64 memory.available_bytes;
      memory_cached_bytes = to_int64 memory.cached_bytes;
      memory_buffers_bytes = to_int64 memory.buffers_bytes;
      swap_total_bytes = to_int64 memory.swap_total_bytes;
      swap_used_bytes = to_int64 memory.swap_used_bytes;
      uptime_seconds = to_int64 memory.uptime_seconds;
      disk_read_bytes_total = to_int64 disk.read_bytes_total;
      disk_write_bytes_total = to_int64 disk.write_bytes_total;
      disk_read_bytes_delta = to_int64 disk.read_bytes_delta;
      disk_write_bytes_delta = to_int64 disk.write_bytes_delta;
      disk_read_ops_delta = to_int64 disk.read_ops_delta;
      disk_write_ops_delta = to_int64 disk.write_ops_delta;
    }

-- monitoring.filesystem_metric_samples; the two last columns may be NULL.
pub record FilesystemSample : Type 0 where
  pub bucket_at : Time
  pub node_id : Text
  pub filesystem_id : Text
  pub total_bytes : ℤ
  pub used_bytes : ℤ
  pub available_bytes : ℤ
  pub total_inodes : Option ℤ
  pub used_inodes : Option ℤ

unfoldable pub filesystem_sample : Stamp → Text → FilesystemMetrics → FilesystemSample
filesystem_sample stamp id metric = record {
  bucket_at = stamp.bucket_at;
  node_id = stamp.node_id;
  filesystem_id = id;
  total_bytes = to_int64 metric.total_bytes;
  used_bytes = to_int64 metric.used_bytes;
  available_bytes = to_int64 metric.available_bytes;
  total_inodes = if metric.total_inodes == 0 then none else some (to_int64 metric.total_inodes);
  used_inodes = if metric.total_inodes == 0 then none else some (to_int64 metric.used_inodes);
}

-- monitoring.network_metric_samples
pub record NetworkSample : Type 0 where
  pub bucket_at : Time
  pub node_id : Text
  pub interface_id : Text
  pub link_up : Bool
  pub rx_bytes_total : ℤ
  pub tx_bytes_total : ℤ
  pub rx_bytes_delta : ℤ
  pub tx_bytes_delta : ℤ
  pub rx_packets_delta : ℤ
  pub tx_packets_delta : ℤ
  pub rx_errors_delta : ℤ
  pub tx_errors_delta : ℤ
  pub rx_dropped_delta : ℤ
  pub tx_dropped_delta : ℤ

unfoldable pub network_sample : Stamp → Text → NetworkMetrics → NetworkSample
network_sample stamp id metric = record {
  bucket_at = stamp.bucket_at;
  node_id = stamp.node_id;
  interface_id = id;
  link_up = metric.link_up;
  rx_bytes_total = to_int64 metric.rx_bytes_total;
  tx_bytes_total = to_int64 metric.tx_bytes_total;
  rx_bytes_delta = to_int64 metric.rx_bytes_delta;
  tx_bytes_delta = to_int64 metric.tx_bytes_delta;
  rx_packets_delta = to_int64 metric.rx_packets_delta;
  tx_packets_delta = to_int64 metric.tx_packets_delta;
  rx_errors_delta = to_int64 metric.rx_errors_delta;
  tx_errors_delta = to_int64 metric.tx_errors_delta;
  rx_dropped_delta = to_int64 metric.rx_dropped_delta;
  tx_dropped_delta = to_int64 metric.tx_dropped_delta;
}

-- monitoring.gpu_metric_samples
pub record GpuSample : Type 0 where
  pub bucket_at : Time
  pub node_id : Text
  pub gpu_id : Text
  pub utilization_percent : Float
  pub memory_total_bytes : ℤ
  pub memory_used_bytes : ℤ

unfoldable pub gpu_sample : Stamp → ActiveGpu → GpuMetrics → GpuSample
gpu_sample stamp gpu metric = record {
  bucket_at = stamp.bucket_at;
  node_id = stamp.node_id;
  gpu_id = gpu.id;
  utilization_percent = metric.utilization_percent;
  memory_total_bytes = gpu.memory_total_bytes;
  memory_used_bytes = to_int64 metric.memory_used_bytes;
}
