-- ===== src/Checkpoint.antt =====
-- src/bulk_http/checkpoint: the manifest of a campaign and the plan of a resume.
pub mod Store
pub mod Resume
