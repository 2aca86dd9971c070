-- ===== src/Version.antt =====
-- internal/version/version.go: versions of the agent, their normal form and their order.
pub mod Parse
pub mod Order
pub mod Laws
pub mod Normal
mod Tests
