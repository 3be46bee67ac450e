-- ===== src/Strict/Failover.antt =====
-- strict/failover.py: `FailoverManager`, partition ownership under worker failures.
pub mod State
pub mod Membership
pub mod Reassign
pub mod Failback
pub mod Ownership
pub mod Confirm
pub mod Handover
pub mod Mirror
pub mod Takeover
pub mod Leaving
