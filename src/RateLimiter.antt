-- ===== src/RateLimiter.antt =====
-- src/app/rate_limiter: token buckets, the store that holds them, and the middleware's checks.
pub mod Bucket
pub mod Clients
pub mod Store
pub mod Middleware
pub mod Defaults
