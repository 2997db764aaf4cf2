-- ===== src/Net.antt =====
-- src/bulk_http/net: what a transport returns, and the retries above it.
pub mod Transport
pub mod Retry
pub mod Fake
pub mod Curl
