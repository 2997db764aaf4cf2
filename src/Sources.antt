-- ===== src/Sources.antt =====
-- src/bulk_http/sources: streams of tasks from lists, lines and rows.
pub mod Build
pub mod Rows
