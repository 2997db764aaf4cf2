-- ===== src/Compliance.antt =====
-- src/bulk_http/compliance: the domain lists, what is added to requests and metadata, and robots.txt.
pub mod Filter
pub mod Robots
pub mod RobotsCache
