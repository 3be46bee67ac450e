-- ===== src/Tests/Failover.antt =====
-- strict/failover.py: tests with two workers, of which one has failed.
use csdlpt.Prelude.{
  ◌≡◌, ◌≢◌, refl, true, false, some, List, [], ◌∷◌, ℕ, String, elem, nat_eq, string_eq, arith, keep,
  length, ◌<◌,
}
use csdlpt.Prelude.Dict
use csdlpt.Prelude.Dict.{Dict}
use csdlpt.Common.Types.{WorkerStatus, active, failed, assigned, reassigning}
use csdlpt.Strict.Failover.State.{
  FailoverManager, FailbackState, WorkerRecord, pause, flush_ack, complete, alive_workers,
}
use csdlpt.Strict.Failover.Membership.{register_worker, claim_all, is_state, heartbeat}
use csdlpt.Strict.Failover.Reassign.{is_orphan, reassign_failed_partitions}
use csdlpt.Strict.Failover.Failback.{start_failback, advance_failback, begun, init}
use csdlpt.Strict.Failover.Ownership.{
  IsSame, is_served, reassign_serves, reassign-IsSame, in_transit,
}
use csdlpt.Strict.Failover.Confirm.{is_settled, reassign-heartbeat}
use csdlpt.Strict.Failover.Handover.{
  IsBack, IsUntouched, steps_left, advance_all, advance_all-IsBack, advance_all_keeps,
}
use csdlpt.Strict.Failover.Mirror.{IsKeyed, IsMirrored}
use csdlpt.Strict.Failover.Takeover.{Call, register, start, advance, run, run-init}

abbrev worker : String → WorkerStatus → List ℕ → WorkerRecord
worker w s l = record {
  worker_id = w;
  last_heartbeat = 1000;
  status = s;
  assigned_partitions = l;
  failure_count = 0;
}

abbrev empty : FailoverManager
empty = record {
  heartbeat_timeout = 10000;
  original_timeout = 10000;
  total_partitions = 3;
  workers = [];
  partition_state = [];
  partition_owner = [];
  original_owner = [];
  event_log = [];
  pending_reassignments = [];
  failback_states = [];
  store = some [];
  all_healthy_since = 0;
  has_callback = true;
  type_changes = [];
  partition_offsets = [];
}

-- Partition 2 is on its way to a worker that has failed since.
abbrev one_failed : FailoverManager
one_failed = record empty {
  workers = ("a", worker "a" failed (0 ∷ 2 ∷ [])) ∷ ("b", worker "b" active (1 ∷ [])) ∷ [];
  partition_state = (0, assigned) ∷ (1, assigned) ∷ (2, reassigning) ∷ [];
  partition_owner = (0, "a") ∷ (1, "b") ∷ (2, "a") ∷ [];
  original_owner = (0, "a") ∷ (1, "b") ∷ (2, "b") ∷ [];
  pending_reassignments = (2, "a") ∷ [];
}

workers_once : Dict.IsDict one_failed.workers
unfolding Dict.get
workers_once = (refl, (refl, tt))

owners_once : Dict.IsDict one_failed.partition_owner
unfolding Dict.get
owners_once = (refl, (refl, (refl, tt)))

b_alive : elem "b" (alive_workers one_failed) ≡ true
unfolding elem alive_workers keep
b_alive = refl

owner_0 : Dict.get one_failed.partition_owner 0 ≡ some "a"
unfolding Dict.get
owner_0 = refl

owner_2 : Dict.get one_failed.partition_owner 2 ≡ some "a"
unfolding Dict.get
owner_2 = refl

state_0 : is_state reassigning (Dict.get one_failed.partition_state 0) ≡ false
unfolding Dict.get
state_0 = refl

orphan_0 : is_orphan one_failed (0, "a") ≡ true
unfolding is_orphan Dict.get
orphan_0 = refl

listed : elem {A = ℕ} 0 (1 ∷ 0 ∷ []) ≡ true
unfolding elem
listed = refl

reassign_serves_example : is_served (reassign_failed_partitions 20000 one_failed).1 0 ≡ true
reassign_serves_example =
    reassign_serves 20000 one_failed 0 "a" "b" workers_once owners_once b_alive owner_0 state_0

reassign-IsSame_example : IsSame one_failed (reassign_failed_partitions 20000 one_failed).1 2
unfolding Dict.get
reassign-IsSame_example =
    reassign-IsSame 20000 one_failed 2 "a" owners_once owner_2 (in_transit refl)

reassign-heartbeat_example :
    (w : String) × (elem w (alive_workers one_failed) ≡ true)
    × (is_settled 0
          (heartbeat 21000 w (1 ∷ 0 ∷ []) [] (reassign_failed_partitions 20000 one_failed).1)
        ≡ true)
    × (Dict.get
          (heartbeat 21000 w
            (1 ∷ 0 ∷ [])
            []
            (reassign_failed_partitions 20000 one_failed).1).partition_owner
          0
        ≡ some w)
reassign-heartbeat_example =
    reassign-heartbeat 20000 21000 one_failed 0 "a" "b" (1 ∷ 0 ∷ []) [] workers_once owners_once
      b_alive owner_0 orphan_0 listed

-- Partition 0 goes back to worker "a".
abbrev going_back : FailoverManager
going_back = record empty {
  workers = ("a", worker "a" active []) ∷ ("b", worker "b" active (0 ∷ [])) ∷ [];
  partition_owner = (0, "b") ∷ [];
  original_owner = (0, "a") ∷ [];
  failback_states = (0, begun 30000 0 "b" "a") ∷ [];
}

in_failback : Dict.get going_back.failback_states 0 ≡ some (begun 30000 0 "b" "a")
unfolding Dict.get
in_failback = refl

pause_not_complete : pause ≢ complete
pause_not_complete e = cc

four : length {A = ℕ} (1 ∷ 2 ∷ 3 ∷ 4 ∷ []) ≡ steps_left pause
unfolding steps_left
four = refl

three : length {A = ℕ} (1 ∷ 2 ∷ 3 ∷ []) < steps_left pause
unfolding steps_left
three = omega arith

advance_all-IsBack_example : IsBack (advance_all (1 ∷ 2 ∷ 3 ∷ 4 ∷ []) 0 going_back) 0 "a"
advance_all-IsBack_example =
    advance_all-IsBack 0 (1 ∷ 2 ∷ 3 ∷ 4 ∷ []) (begun 30000 0 "b" "a") going_back in_failback
      pause_not_complete four

advance_all_keeps_example : IsUntouched going_back (advance_all (1 ∷ 2 ∷ 3 ∷ []) 0 going_back) 0
advance_all_keeps_example =
    advance_all_keeps (1 ∷ 2 ∷ 3 ∷ []) 0 (begun 30000 0 "b" "a") going_back in_failback three

none-IsKeyed : IsKeyed []
unfolding Dict.get
none-IsKeyed = record { once = tt; own = λ j fb e. cc }

nothing_stored : IsMirrored empty
nothing_stored = record { keyed = none-IsKeyed; mirror = (none-IsKeyed, λ j. refl) }

abbrev calls : List Call
calls = register 1 "a" (0 ∷ []) ∷ register 2 "b" (0 ∷ []) ∷ start 3 "a" ∷ advance 4 0 ∷ []

abbrev stored : Dict ℕ FailbackState
stored = (0, record (begun 3 0 "b" "a") { step = flush_ack; last_step_at = 4 }) ∷ []

calls_store : (run calls empty).store ≡ some stored
unfolding run register_worker claim_all start_failback advance_failback Dict.get Dict.put keep
calls_store = refl

run-init_example :
    Dict.get (init 10000 3 (some stored) false).failback_states 0
    ≡ Dict.get (run calls empty).failback_states 0
run-init_example = run-init calls empty stored 10000 3 0 false nothing_stored calls_store
