-- ===== src/Strict.antt =====
-- strict/: the watermark strategy that waits for the slowest partition and loses no event.
pub mod Output
pub mod Engine
pub mod Coordinator
pub mod Worker
pub mod Failover
pub mod Raft
pub mod Backpressure
pub mod IngestorHealth
