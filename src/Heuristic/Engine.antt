-- ===== src/Heuristic/Engine.antt =====
-- heuristic/engine.py: `HeuristicWatermarkEngine`.
pub mod Estimate
pub mod Replay
pub mod Watermark
pub mod Sampling
pub mod State
pub mod Close
pub mod Process
pub mod Storage
pub mod Accounting
pub mod Routing
pub mod Run
pub mod Finality
pub mod Monotone
pub mod Keeping
pub mod Rising
pub mod Restart
