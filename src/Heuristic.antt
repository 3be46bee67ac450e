-- ===== src/Heuristic.antt =====
-- The heuristic branch: late events are kept aside and results corrected afterwards.
pub mod Dlq
pub mod Aggregator
pub mod ColdStart
pub mod NegativeLag
pub mod Engine
