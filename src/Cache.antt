-- ===== src/Cache.antt =====
-- internal/cache: which backend served a prompt last.
pub mod Store
pub mod Memory
pub mod Redis
mod Tests
