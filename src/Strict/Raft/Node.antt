-- ===== src/Strict/Raft/Node.antt =====
-- strict/raft_coordinator.py: the state of `RaftCoordinator` and its calls without ZooKeeper, with the
-- two handlers of its ZooKeeper messages. Times are milliseconds. A call is one
-- step, as the lock makes it; so is a round of the leader's loop, which takes no lock.
use csdlpt.Prelude.{
  ℕ, ◌+◌, ◌-◌, ◌/◌, Bool, true, false, ◌&&◌, ◌||◌, String, Option, none, some, List, [], ◌∷◌,
  string_eq, ltb, leb, if◌then◌else◌, length,
}
use csdlpt.Prelude.Mark
use csdlpt.Prelude.Mark.{Mark}
use csdlpt.Common.Types.{WorkerHeartbeat}
use csdlpt.Strict.Coordinator.State.{Coordinator}
use csdlpt.Strict.Coordinator.Heartbeat as Plain

pub data RaftRole : Type 0 where
  leader follower candidate : RaftRole

pub record RaftCoordinator : Type 0 where
  pub coordinator_id : String
  pub peers : List String
  pub role : RaftRole
  pub current_term : ℕ
  pub voted_for : String
  pub leader_id : String
  pub last_leader_heartbeat : ℕ
  pub last_committed_term : ℕ
  pub coordinator : Coordinator

-- The state of a new object, over the coordinator that `load_state` has filled.
unfoldable pub init : String → List String → Coordinator → RaftCoordinator
init id peers c = record {
  coordinator_id = id;
  peers = peers;
  role = follower;
  current_term = 0;
  voted_for = "";
  leader_id = "";
  last_leader_heartbeat = 0;
  last_committed_term = 0;
  coordinator = c;
}

abbrev pub is_leader : RaftRole → Bool
is_leader leader = true
is_leader follower = false
is_leader candidate = false

-- What a peer answers by gRPC, and by HTTP if that fails; none is an exception or no stub.
pub record Reply : Type 0 where
  pub by_grpc : Option Bool
  pub by_http : Option Bool

abbrev pub is_yes : Option Bool → Bool
is_yes none = false
is_yes (some b) = b

abbrev pub granted : Reply → Bool
granted r = elim r.by_grpc [ some b ↦ b | none ↦ is_yes r.by_http ]

abbrev pub tally : List Reply → ℕ
tally [] = 0
tally (r ∷ rs) = (if granted r then 1 else 0) + tally rs

-- A leader by more than half of the nodes, or a follower.
unfoldable pub decide : ℕ → RaftCoordinator → RaftCoordinator
decide votes n =
    if ltb ((length n.peers + 1) / 2) votes
    then record n { role = leader; leader_id = n.coordinator_id }
    else record n { role = follower }

abbrev pub stand : RaftCoordinator → RaftCoordinator
stand n = record n {
  current_term = n.current_term + 1;
  role = candidate;
  voted_for = n.coordinator_id;
}

-- `_start_election`, with the answers of the peers.
unfoldable pub start_election : List Reply → RaftCoordinator → RaftCoordinator
start_election replies n = decide (1 + tally replies) (stand n)

-- One round of `_timer`.
unfoldable pub timer : ℕ → List Reply → RaftCoordinator → RaftCoordinator
timer now replies n =
    if is_leader n.role
    then n
    else if ltb 3000 (now - n.last_leader_heartbeat)
    then start_election replies n
    else n

abbrev pub new_term : ℕ → RaftCoordinator → RaftCoordinator
new_term term n =
    if ltb n.current_term term
    then record n { current_term = term; role = follower; voted_for = "" }
    else n

abbrev pub raise_global : Mark → Coordinator → Coordinator
raise_global w c = if Mark.lt c.W_global w then record c { W_global = w } else c

abbrev pub may_vote : ℕ → String → RaftCoordinator → Bool
may_vote term id n =
    leb n.current_term term && (string_eq.beq n.voted_for "" || string_eq.beq n.voted_for id)

abbrev pub grant : ℕ → String → Mark → RaftCoordinator → RaftCoordinator
grant now id w n = record n {
  voted_for = id;
  last_leader_heartbeat = now;
  coordinator = raise_global w n.coordinator;
}

-- The answer is `granted`, the term that of the node afterwards.
unfoldable pub handle_vote_request :
    ℕ → ℕ → String → Mark → RaftCoordinator → Bool × RaftCoordinator
handle_vote_request now term id w n =
    let m = new_term term n in if may_vote term id m then (true, grant now id w m) else (false, m)

-- The copy of the leader's `W_global`, in both attributes.
abbrev pub copy_global : Mark → Coordinator → Coordinator
copy_global w c = if Mark.lt c.W_global w then record c { W_global = w; W_global_prev = w } else c

abbrev pub follow : ℕ → String → Mark → RaftCoordinator → RaftCoordinator
follow term id w n = record n {
  current_term = term;
  leader_id = id;
  coordinator = copy_global w n.coordinator;
}

abbrev pub heard : ℕ → RaftCoordinator → RaftCoordinator
heard now n = record n { last_leader_heartbeat = now; role = follower }

unfoldable pub receive_state : ℕ → ℕ → String → Mark → RaftCoordinator → RaftCoordinator
receive_state now term id w n =
    if leb n.current_term term then follow term id w (heard now n) else heard now n

unfoldable pub handle_zk_state : ℕ → String → Mark → RaftCoordinator → RaftCoordinator
handle_zk_state now id w n = record (heard now n) {
  leader_id = id;
  coordinator = copy_global w n.coordinator;
}

-- One round of `_loop`, with what each peer acknowledges.
unfoldable pub heartbeat_round : List Reply → RaftCoordinator → RaftCoordinator
heartbeat_round acks n =
    if is_leader n.role && leb ((length n.peers + 1) / 2 + 1) (1 + tally acks)
    then record n { last_committed_term = n.current_term }
    else n

-- The answer is none if the node is not the leader.
unfoldable pub receive_heartbeat :
    ℕ → WorkerHeartbeat → RaftCoordinator → Option Bool × RaftCoordinator
receive_heartbeat now hb n =
    if is_leader n.role
    then (some true, record n { coordinator = Plain.receive_heartbeat now hb n.coordinator })
    else (none, n)
