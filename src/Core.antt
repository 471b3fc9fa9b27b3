-- ===== src/Core.antt =====
-- server/core: buffering of reads, limits and counters.
pub mod EpcBuffer
pub mod EpcValidator
pub mod RateLimiter
pub mod IdempotencyManager
