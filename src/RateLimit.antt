-- ===== src/RateLimit.antt =====
-- pkg/ratelimit/limiter.go: the token buckets of one process, the fixed window over Redis, and the
-- keys that they count by.
pub mod Decimal
pub mod Buckets
pub mod Window
pub mod Bounds
pub mod Order
pub mod Keys
pub mod Isolation
