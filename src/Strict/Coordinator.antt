-- ===== src/Strict/Coordinator.antt =====
-- strict/coordinator.py: `StrictCoordinator`, which computes `W_global` from the workers' heartbeats.
-- The state is in State, the numbers in Global, a heartbeat in Heartbeat, the disk in Persist.
pub mod State
pub mod Global
pub mod Heartbeat
pub mod Persist
pub mod Locals
pub mod Minimum
pub mod Watermark
pub mod Fencing
pub mod Diagnosis
pub mod Restart
