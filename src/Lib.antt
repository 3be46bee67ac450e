-- ===== src/Lib.antt =====
-- A verification library for the watermark pipeline: an event stream is cut into tumbling windows, the
-- engine of a partition counts events until the watermark passes a window, the window's result goes
-- once to the output topics, and a coordinator takes the minimum of the partitions' watermarks.
--
-- Parts, by file of this library, and what they model, with paths from the repository's root:
--   Prelude, Prelude/*: shared notation and lemmas: integers (Int), Python dicts (Dict), watermarks
--     with -inf (Mark), `sorted` (Sort), `in` on a list (Equal).
--   Common/Types, Common/Window, Common/Window/*: common/types.py and `TumblingWindow` of
--     common/window.py.
--   Strict/Output, Strict/Output/*: strict/output_manager.py, `OutputManager.emit` and its sink
--     `MockTransactionalSink` (Sink), with recovery after a crash (Sink/Recovery, Sink/Crash).
--   Strict/Engine/*: `StrictWatermarkEngine` of strict/engine.py. State is its attributes; Close has
--     `_advance_watermark` and `flush`, Checkpoint `_purge_seen_ids`, `checkpoint` and reading it,
--     Steps `on_punctuation` and `process`, Run a whole life as a list of calls.
--   Strict/Coordinator/*: `StrictCoordinator` of strict/coordinator.py. Global has
--     `_update_statuses` and `_compute_global`, Heartbeat `receive_heartbeat`, Persist the rest.
--   Heuristic/Dlq/*: heuristic/dlq.py. Pipeline has the queue, Corrections `compute_corrections`,
--     Protocol the delivery of a correction.
--   Strict/Failover/*: `FailoverManager` of strict/failover.py. State has its attributes, Membership
--     `register_worker`, `heartbeat` and `detect_failures`, Reassign `reassign_failed_partitions` and
--     `cascading_failover`, Failback the five steps back and what RocksDB keeps of them; Ownership and
--     Confirm follow a partition from a dead worker to the next, Handover a failback to its end,
--     Mirror, Leaving and Takeover the store and a coordinator that starts on it.
--   Heuristic/Aggregator, Heuristic/Aggregator/Progress: `HeuristicAggregator` of
--     heuristic/aggregator.py, with the global watermark and what is saved of it.
--   Strict/Raft/*: `RaftCoordinator` of strict/raft_coordinator.py. Node has the calls of one node,
--     Ballots the votes it casts in a run, Election the cluster, Rising its term and `W_global`. What the
--     peers answer is an argument.
--   Strict/Backpressure: `BackpressureController` of strict/backpressure.py, and Gate, one partition of it.
--   Strict/IngestorHealth: `IngestorHealthMonitor` of strict/ingestor_health.py, and Bound, `W_meta_global`.
--   Heuristic/Engine/*: `HeuristicWatermarkEngine` of heuristic/engine.py. Estimate has the attributes that
--     estimate the watermark, Sampling `_update_L_eff`, Watermark `_compute_watermark`, Replay the snapshots
--     and the replay mode; State has the other attributes, Close `_close_windows` and `flush`, Process
--     `process`, Storage the checkpoints and `__init__`. Accounting and Routing follow an event, Run has
--     a life as a list of calls, Monotone, Keeping and Rising are about `W_h`, Finality and Restart
--     about results and restarts. Heuristic/ColdStart, Heuristic/NegativeLag: the files of these names.
--   Common/Books: the counts of open and closed windows, for both engines.
--   Sketch/Sliding, Sketch/Cache: `SlidingWindowDDSketch` of local_ddsketch/compat.py and its cache.
--   Sketch/*: `DDSketch` of local_ddsketch/sketch.py. What the code computes in floats, the
--     logarithm, the power, the product and the rank, are arguments.
--   Strict/Worker/*: strict/worker.py. Queue has `BoundedPriorityQueue` over an interface of heapq, for
--     which SortedHeap is an instance, Commands `validate_command` and `update_global_watermark`.
--   Tests/*: each theorem at a concrete input.
--
-- Conventions. A float that is a time in seconds is an integer of milliseconds; `Mark` adds
-- float("-inf"). One reading of the clock serves a call. A string that is formatted from numbers is
-- the record of these numbers. A method is a function from the state to the state, with its answer
-- first where it has one; locks are left out, a sequence of calls is a list. An engine calls the
-- output manager through its field `output`; a heartbeat carries the engines' local watermarks from a
-- worker to the coordinator. RocksDB is a table for each key prefix, and a send to Kafka or to the tiered
-- storage is appended to a list.
--
-- Bounds. The `while` loops of `windows_between` and `windows_overlapping` run on fuel, the distance
-- that is left; it is enough because each round moves on by a size that is not 0. `_maybe_collapse` runs on the number of the
-- buckets, since each round takes one away. All other loops are structural.
--
-- Not modelled: the constructor of `StrictWatermarkEngine` in strict/engine.py, which raises a NameError, so
-- that an engine is any value of its attributes;
-- latencies, logging, threads and locks, network and file formats, summaries for the
-- dashboard, and the parts that no file above names.
pub mod Prelude
pub mod Common
pub mod Heuristic
pub mod Sketch
pub mod Strict
pub mod Tests
