-- ===== src/Concurrency.antt =====
-- src/bulk_http/concurrency: batches, worker sizing, and the batches in flight.
pub mod Chunking
pub mod Sizing
pub mod InFlight
pub mod Processor
pub mod Deferral
pub mod Pool
