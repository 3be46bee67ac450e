-- ===== src/Tests.antt =====
-- The theorems at concrete inputs, by the part of the program.
mod Windows
mod Outputs
mod Engines
mod Coordinators
mod Queues
mod Sketches
mod Workers
mod Aggregators
mod Failover
mod Heuristics
mod Elections
mod Ingestors
mod Backpressure
