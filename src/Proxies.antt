-- ===== src/Proxies.antt =====
-- src/bulk_http/proxies: health tracking, the pool, and the two rate limiters.
pub mod AdaptiveConfig
pub mod Health
pub mod Pool
pub mod RateLimit
pub mod Adaptive
pub mod Backconnect
