-- ===== src/Heuristic/Dlq.antt =====
-- heuristic/dlq.py: the dead letter queue and the delivery of corrections.
pub mod Pipeline
pub mod Corrections
pub mod Protocol
pub mod Retention
pub mod Draining
pub mod Grouping
pub mod Redelivery
