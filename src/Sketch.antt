-- ===== src/Sketch.antt =====
-- local_ddsketch/sketch.py: the quantile sketch of the heuristic watermark.
pub mod Buckets
pub mod Collapse
pub mod Counts
pub mod Rank
pub mod Sliding
pub mod Cache
