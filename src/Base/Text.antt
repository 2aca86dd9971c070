-- ===== src/Base/Text.antt =====
-- Go strings: the functions on them, and their laws.
mod Defs
mod Laws
mod Trim
unfoldable pub use Defs.*
pub use Laws.*
pub use Trim.*
