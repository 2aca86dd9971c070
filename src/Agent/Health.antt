-- ===== src/Agent/Health.antt =====
-- internal/agent/health.go: the health of the drives, read from smartctl, and the temperatures.
pub mod Types
pub mod Risk
pub mod Storage
pub mod Valid
pub mod Level
pub mod Scan
pub mod Merge
pub mod Temperature
