-- ===== src/Report/Error.antt =====
-- The errors of internal/report/validate.go, one constructor for each message. A text argument is
-- the key, value or kind that the message quotes.
use server_status.Base.Text.{Text}
use server_status.Base.Int.{ℤ}

-- validateUnsignedBigints
pub data BigintError : Type 0 where
  exceeds_bigint : BigintError

pub data ValidationError : Type 0 where
  unsupported_version : ℤ → ValidationError
  invalid_agent_id missing_agent_fields invalid_machine_type invalid_primary_ip : ValidationError
  collected_at_required collected_at_in_future collected_at_too_old : ValidationError
  invalid_interval invalid_cpu_usage negative_load : ValidationError
  too_many_resources : ValidationError
  empty_key : Text → ValidationError
  duplicate_key : Text → Text → ValidationError
  invalid_cpu_package invalid_memory_module invalid_block_device : Text → ValidationError
  invalid_block_device_kind invalid_filesystem invalid_network_interface : Text → ValidationError
  invalid_address duplicate_address : Text → Text → ValidationError
  invalid_address_scope invalid_gpu : Text → ValidationError
  memory_metrics disk_metrics : BigintError → ValidationError
  memory_exceeds_total : ValidationError
  unknown_filesystem unknown_interface unknown_gpu unknown_block_device : Text → ValidationError
  filesystem_metric network_metric gpu_metric health_metric : Text → BigintError → ValidationError
  filesystem_exceeds_total gpu_memory_exceeds_total : Text → ValidationError
  invalid_gpu_utilization invalid_gpu_temperature : Text → ValidationError
  too_many_health_resources : ValidationError
  invalid_component : Text → Text → ValidationError
  invalid_temperature_metric : Text → ValidationError
  invalid_smart_status invalid_risk_level : Text → Text → ValidationError
  invalid_storage_health too_many_risk_reasons invalid_risk_reason : Text → ValidationError
  duplicate_risk_reason : Text → Text → ValidationError
  fingerprint_failed fingerprint_mismatch : ValidationError
