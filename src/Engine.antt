-- ===== src/Engine.antt =====
-- src/bulk_http/engine: the tasks that a run hands out, and the campaign.
pub mod Campaign
pub mod Prepare
pub mod Stream
pub mod Control
pub mod Executor
pub mod Run
pub mod RobotsSupport
pub mod Spawn
