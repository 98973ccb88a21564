-- ===== src/Cache.antt =====
-- The repositories behind the caches: `CacheRepository` of crates/proton-sdk-rs2/src/cache.rs, what
-- it promises as an abstract store, and its two implementations.
pub mod Store
pub mod Memory
pub mod Sqlite
mod Tests
