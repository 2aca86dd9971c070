-- ===== src/Report.antt =====
-- internal/report: the report that an agent sends, its validation and the inventory fingerprint.
pub mod Inventory
pub mod Types
pub mod Error
pub mod Keys
pub mod Bigint
pub mod Uuid
pub mod Platform
pub mod Hardware
pub mod Measurements
pub mod Normalize
pub mod Validate
pub mod Bounds
pub mod Sample
mod Tests
