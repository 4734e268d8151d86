-- ===== src/Cache.antt =====
-- The cache of app/core/cache.py: a process-local LRU store, a Redis client with back-off, the
-- JSON calls that join them, and the lease scripts.
pub mod Local
pub mod Client
pub mod Redis
pub mod Json
pub mod Lease
pub mod Memory
mod Tests
