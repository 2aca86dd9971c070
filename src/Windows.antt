-- ===== src/Windows.antt =====
-- windows-agent: the agent for Windows.
pub mod Config
pub mod Release
pub mod Inventory
mod Tests
