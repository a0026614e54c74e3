-- ===== src/Cache.antt =====
-- The Redis cache (src/cache).
pub mod Keys
pub mod Service
