-- ===== src/Agent.antt =====
-- internal/agent: what a Linux agent collects and sends.
pub mod Collector
pub mod Health
pub mod Config
pub mod Client
pub mod Updater
pub mod Run
mod Tests
mod UpdaterTests
