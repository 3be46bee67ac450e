-- ===== src/Strict/Worker.antt =====
-- strict/worker.py: the queue before an engine and the commands of the coordinator.
pub mod Queue
pub mod Commands
pub mod Conservation
pub mod Order
pub mod SortedHeap
pub mod Idempotence
