-- ===== src/Tests/Elections.antt =====
-- strict/raft_coordinator.py: tests of a cluster of three coordinators.
use csdlpt.Prelude.{
  ◌≡◌, ◌≢◌, ◌≤◌, refl, arith, true, false, String, none, some, List, [], ◌∷◌, pos, string_eq,
  nat_eq, keep, elem,
}
use csdlpt.Prelude.Mark.{neg_inf, at, ◌⊑◌, Mark}
use csdlpt.Prelude.Mark
use csdlpt.Prelude.Dict
use csdlpt.Strict.Coordinator.State.{Coordinator, persist_partition}
use csdlpt.Strict.Coordinator.Global
use csdlpt.Strict.Coordinator.Heartbeat
use csdlpt.Strict.Coordinator.Persist as Plain
use csdlpt.Strict.Raft.Node.{
  RaftCoordinator, Reply, init, follower, timer, start_election, decide, handle_vote_request,
  receive_state, heartbeat_round, receive_heartbeat,
}
use csdlpt.Strict.Raft.Ballots.{
  Call, tick, vote_request, state_message, broadcast_round, worker_heartbeat, call, ballot, is_for,
  casts, run, casts_once,
}
use csdlpt.Strict.Raft.Election.{Life, voters, elected_once}
use csdlpt.Strict.Raft.Rising.{IsLevel, is_modest, run_rises}

abbrev plain : Coordinator
plain = Plain.init (pos 10000) false (record { part = []; state = none })

abbrev node : String → List String → RaftCoordinator
node id peers = init id peers plain

abbrev a : RaftCoordinator
a = node "a" ("b" ∷ "c" ∷ [])

abbrev b : RaftCoordinator
b = node "b" ("a" ∷ "c" ∷ [])

abbrev c : RaftCoordinator
c = node "c" ("a" ∷ "b" ∷ [])

abbrev yes : Reply
yes = record { by_grpc = none; by_http = some true }

abbrev no : Reply
no = record { by_grpc = some false; by_http = none }

-- b votes for a, and c, which has stood itself, does not.
abbrev calls_a : List Call
calls_a = tick 5000 (yes ∷ no ∷ []) ∷ broadcast_round (yes ∷ no ∷ []) ∷ []

abbrev calls_b : List Call
calls_b = vote_request 5000 1 "a" neg_inf ∷ vote_request 5001 1 "c" neg_inf ∷ []

abbrev calls_c : List Call
calls_c = tick 5000 (no ∷ no ∷ []) ∷ vote_request 5001 1 "a" neg_inf ∷ []

abbrev cluster : List Life
cluster =
    record { start = a; calls = calls_a }
    ∷ record { start = b; calls = calls_b }
    ∷ record { start = c; calls = calls_c }
    ∷ []

voters_of_a : voters 1 "a" cluster ≡ 2
unfolding voters casts is_for ballot call timer start_election decide handle_vote_request
    heartbeat_round init
voters_of_a = refl

named : a.coordinator_id ≢ ""
unfolding init
named e = let h : string_eq.beq "a" "" ≡ true = (string_eq.beq_iff "a" "").1 e in cc

casts_once_example : a.coordinator_id ≡ a.coordinator_id
unfolding casts is_for ballot call timer start_election decide handle_vote_request heartbeat_round
    init
casts_once_example = casts_once 1 "a" "a" calls_b b named named refl refl

elected_once_example : a.coordinator_id ≡ a.coordinator_id
unfolding voters casts is_for ballot call timer start_election decide handle_vote_request
    heartbeat_round init
elected_once_example =
    elected_once cluster a a (yes ∷ no ∷ []) (no ∷ yes ∷ []) named named refl refl (omega arith)
      (omega arith) refl refl refl

abbrev later_calls : List Call
later_calls =
    vote_request 5000 1 "a" neg_inf
    ∷ state_message 5200 1 "a" (at (pos 9000))
    ∷ tick 9000 (yes ∷ no ∷ [])
    ∷ []

run_rises_example :
    (b.current_term ≤ (run later_calls b).current_term)
    × (b.coordinator.W_global ⊑ (run later_calls b).coordinator.W_global)
unfolding is_modest IsLevel run call timer start_election decide handle_vote_request receive_state
    init Plain.init Plain.load_from_store
run_rises_example = run_rises later_calls b tt refl

-- A vote raises `W_global` alone, so the node's first report as the leader takes it back.
abbrev takes_back : List Call
takes_back =
    vote_request 5000 1 "a" (at (pos 9000))
    ∷ tick 9000 (yes ∷ no ∷ [])
    ∷ worker_heartbeat 9100 (record {
      worker_id = "w";
      partitions = (0, at (pos 7000)) ∷ [];
      max_event_time = at (pos 7000);
      timestamp = 9100;
      fencing_token = 0;
      idle_partitions = [];
      backpressure_partitions = [];
    })
    ∷ []

vote_claims :
    (handle_vote_request 5000 1 "a" (at (pos 9000)) b).1.coordinator.W_global ≡ at (pos 9000)
unfolding handle_vote_request init Plain.init Plain.load_from_store
vote_claims = refl

run_falls : (run takes_back b).coordinator.W_global ≡ at (pos 7000)
unfolding run call timer start_election decide handle_vote_request receive_heartbeat init Plain.init
    Plain.load_from_store Heartbeat.receive_heartbeat Dict.get Heartbeat.take_heartbeat
    Global.compute_global keep Global.update_statuses Heartbeat.report_partitions
    Heartbeat.report_partition persist_partition Heartbeat.note_worker Dict.put Global.status_of_age
    elem Mark.max Global.minimum
run_falls = refl

-- A message of an older term makes a leader a follower.
old_state_demotes :
    (run (tick 5000 (yes ∷ yes ∷ []) ∷ tick 9000 [] ∷ state_message 9100 0 "b" neg_inf ∷ []) a).role
    ≡ follower
unfolding run call timer start_election decide receive_state init
old_state_demotes = refl
