-- ===== src/Store.antt =====
-- internal/store: what the server keeps in PostgreSQL.
pub mod Tokens
pub mod Preferences
pub mod Nodes
pub mod Table
pub mod Sync
pub mod Active
pub mod Inventory
pub mod Network
pub mod Samples
pub mod Snapshots
pub mod Transaction
pub mod Tables
pub mod Ingest
pub mod Accepted
pub mod History
mod Tests
mod IngestTests
