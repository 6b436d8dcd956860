-- ===== src/RateLimit.antt =====
-- internal/platform/middleware/sentinel and the sentinel part of internal/platform/config: limiting of
-- requests by address, by a script on Redis, and by the rules that sentinel is given.
pub mod Ip
pub mod Distributed
pub mod Config
pub mod Rules
