-- ===== src/Strict/Raft.antt =====
-- strict/raft_coordinator.py: `RaftCoordinator`, which elects one of several coordinators. The calls of
-- a node are in Node, the ballots it casts in Ballots, the elections of a cluster in Election.
pub mod Node
pub mod Ballots
pub mod Election
pub mod Rising
