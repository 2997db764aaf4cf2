-- ===== src/Sinks.antt =====
-- src/bulk_http/sinks: the worker's output file.
pub mod Serialize
pub mod Ndjson
pub mod CsvExport
