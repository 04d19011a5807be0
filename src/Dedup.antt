-- ===== src/Dedup.antt =====
-- components/redis_deduplication: message identity, the local cache, the pool, the deduplicator.
pub mod MessageId
pub mod Cache
pub mod Redis
pub mod Pool
pub mod Deduplicator
mod Tests
mod PoolTests
mod DeduplicatorTests
