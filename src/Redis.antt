-- ===== src/Redis.antt =====
-- pkg/redis: the client's wrappers and the lock.
pub mod Client
pub mod Lock
