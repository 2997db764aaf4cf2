-- ===== src/Examples.antt =====
-- The theorems at concrete inputs, and tests of the definitions.
mod Retry
mod Campaign
mod Pools
mod Limits
mod Batches
mod Matching
mod Codec
mod Manifest
mod Engine
mod Robots
mod Runs
mod Curl
mod Workers
mod Chars
mod Tables
mod Rounds
