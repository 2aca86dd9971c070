-- ===== src/Server.antt =====
-- internal/server: the HTTP server.
pub mod Bearer
pub mod Api
pub mod History
pub mod Releases
mod Tests
mod ApiTests
mod ReleaseTests
