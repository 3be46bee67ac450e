-- ===== src/Strict/Engine.antt =====
-- strict/engine.py: `StrictWatermarkEngine`, one partition of the strict strategy.
pub mod State
pub mod Close
pub mod Steps
pub mod Checkpoint
pub mod Accounting
pub mod Run
pub mod Closing
pub mod Finality
pub mod Purge
pub mod Dedup
pub mod RoundTrip
