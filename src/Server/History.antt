-- ===== src/Server/History.antt =====
-- internal/server/history_cache.go: the cache of encoded node histories and the response made of one.
pub mod Cache
pub mod Bounds
pub mod Lookup
pub mod Eviction
pub mod Get
pub mod Response
