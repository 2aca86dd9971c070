-- ===== src/Report/Measurements.antt =====
-- validateMetrics of internal/report/validate.go: what accepted metrics are.
pub mod Rules
pub mod Valid
pub mod Check
