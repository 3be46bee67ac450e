-- ===== src/Strict/Failover/Failback.antt =====
-- strict/failover.py: the five steps that give a partition back to a recovered worker, and what of
-- them is kept in RocksDB.
use csdlpt.Prelude.{
  ℕ, zero, suc, ◌++◌, Bool, not, ◌&&◌, ◌||◌, String, Option, none, some, List, [], ◌∷◌, nat_eq,
  string_eq, if◌then◌else◌, length, map, keep,
}
use csdlpt.Prelude.Dict
use csdlpt.Prelude.Dict.{Dict}
use csdlpt.Common.Types.{PartitionState, active, assigned, paused}
use csdlpt.Strict.Failover.State.{
  FailoverManager, FailoverEvent, FailbackState, FailbackStep, pause, flush_ack, kafka_reassign,
  seek_resume, complete, normal, failback_started, failback_complete, failback_step_pause,
  failback_step_flush_ack, failback_step_kafka_reassign, failback_step_seek_resume, log_event,
  notify, owns, disowns, update_worker,
}
use csdlpt.Strict.Failover.Membership.{is_state, is_target}

abbrev pub on_store :
    (Dict ℕ FailbackState → Dict ℕ FailbackState)
    → Option (Dict ℕ FailbackState)
    → Option (Dict ℕ FailbackState)
on_store f none = none
on_store f (some d) = some (f d)

abbrev pub put_or_remove : ℕ → Option FailbackState → Dict ℕ FailbackState → Dict ℕ FailbackState
put_or_remove pid none d = Dict.remove d pid
put_or_remove pid (some fb) d = Dict.put d pid fb

-- `_persist_failback_state`
unfoldable pub persist_one : ℕ → FailoverManager → FailoverManager
persist_one pid m = record m {
  store = on_store (put_or_remove pid (Dict.get m.failback_states pid)) m.store;
}

-- `_persist_all_failback`: the prefix is cleared and written again.
unfoldable pub persist_all : FailoverManager → FailoverManager
persist_all m = record m { store = on_store (λ d. m.failback_states) m.store }

-- `_delete_persisted_failback`
unfoldable pub delete_persisted : ℕ → FailoverManager → FailoverManager
delete_persisted pid m = record m { store = on_store (λ d. Dict.remove d pid) m.store }

abbrev pub begun : ℕ → ℕ → String → String → FailbackState
begun now pid owner recovered = record {
  partition_id = pid;
  step = pause;
  started_at = now;
  last_step_at = now;
  from_worker = owner;
  to_worker = recovered;
}

-- A partition that was the worker's at first and is another's now.
unfoldable pub is_due_back : String → FailoverManager → ℕ × String → Bool
is_due_back recovered m (pid, owner) =
    is_target recovered (Dict.get m.original_owner pid) && not (string_eq.beq owner recovered)

-- Step 1 for one partition.
unfoldable pub pause_partition : ℕ → String → ℕ × String → FailoverManager → FailoverManager
unfolding log_event
pause_partition now recovered (pid, owner) m =
    log_event now failback_step_pause recovered (pid ∷ []) (record m {
      partition_state = Dict.put m.partition_state pid paused;
      failback_states = Dict.put m.failback_states pid (begun now pid owner recovered);
    })

unfoldable pub pause_all : ℕ → String → List (ℕ × String) → FailoverManager → FailoverManager
unfolding pause_partition
pause_all now recovered [] m = m
pause_all now recovered (p ∷ l) m = pause_all now recovered l (pause_partition now recovered p m)

unfoldable pub end_start : ℕ → String → List ℕ → FailoverManager → FailoverManager
unfolding log_event persist_all
end_start now recovered [] m = m
end_start now recovered (pid ∷ pids) m =
    persist_all (log_event now failback_started recovered (pid ∷ pids) m)

-- The answer lists the partitions, or is `none`, the error of an unknown worker.
unfoldable pub start_failback : ℕ → String → FailoverManager → Option (List ℕ) × FailoverManager
unfolding pause_all end_start is_due_back
start_failback now recovered m = elim (Dict.get m.workers recovered) [
  | none ↦ (none, m)
  | some wr ↦
      let due = keep (is_due_back recovered m) m.partition_owner in
      let pids = map (λ p. p.0) due in
      (
        some pids,
        end_start now recovered pids (
            pause_all now recovered due (record m {
              workers =
                  Dict.put m.workers recovered
                    (record wr { status = active; last_heartbeat = now });
            })),
      )
]

-- `_NEXT_STEP`
unfoldable pub next_step : FailbackStep → FailbackStep
next_step pause = flush_ack
next_step flush_ack = kafka_reassign
next_step kafka_reassign = seek_resume
next_step seek_resume = complete
next_step complete = complete

-- `_STEP_EVENT`
abbrev pub step_event : FailbackStep → FailoverEvent
step_event pause = failback_step_pause
step_event flush_ack = failback_step_flush_ack
step_event kafka_reassign = failback_step_kafka_reassign
step_event seek_resume = failback_step_seek_resume
step_event complete = failback_complete

-- The last step: the partition is its first owner's again.
unfoldable pub finish : ℕ → ℕ → FailbackState → FailoverManager → FailoverManager
unfolding update_worker log_event delete_persisted notify
finish now pid fb m =
    let back = record m {
      partition_owner = Dict.put m.partition_owner pid fb.to_worker;
      partition_state = Dict.put m.partition_state pid assigned;
      workers =
          update_worker (disowns pid) fb.from_worker
            (update_worker (owns pid) fb.to_worker m.workers);
      pending_reassignments = Dict.remove m.pending_reassignments pid;
    } in
    let logged = log_event now failback_complete fb.to_worker (pid ∷ []) back in
    notify pid normal
      (delete_persisted pid (record logged { failback_states = Dict.remove m.failback_states pid }))

-- A step in between.
unfoldable pub move_on : ℕ → ℕ → FailbackState → FailbackStep → FailoverManager → FailoverManager
unfolding log_event persist_one
move_on now pid fb next m = persist_one pid (
    log_event now (step_event next) fb.to_worker (pid ∷ []) (record m {
      failback_states =
          Dict.put m.failback_states pid (record fb { step = next; last_step_at = now });
    }))

pub data Advanced : Type 0 where
  not_in_failback already_complete : Advanced
  moved : FailbackStep → FailbackStep → Advanced

-- By the step that the partition is at.
unfoldable pub advance_from :
    ℕ → ℕ → FailbackState → FailbackStep → FailoverManager → Advanced × FailoverManager
unfolding next_step finish move_on
advance_from now pid fb complete m = (already_complete, m)
advance_from now pid fb seek_resume m = (moved seek_resume complete, finish now pid fb m)
advance_from now pid fb step m =
    (moved step (next_step step), move_on now pid fb (next_step step) m)

unfoldable pub advance_failback : ℕ → ℕ → FailoverManager → Advanced × FailoverManager
unfolding advance_from
advance_failback now pid m = elim (Dict.get m.failback_states pid) [
  | none ↦ (not_in_failback, m)
  | some fb ↦ advance_from now pid fb fb.step m
]

-- `persist_failback_state`
unfoldable pub persist_failback_state : FailoverManager → ℕ × FailoverManager
unfolding persist_all
persist_failback_state m = elim m.store [
  | none ↦ (0, m)
  | some d ↦ (length m.failback_states, persist_all m)
]

unfoldable pub put_states : List (ℕ × FailbackState) → Dict ℕ FailbackState → Dict ℕ FailbackState
put_states [] d = d
put_states ((k, fb) ∷ l) d = put_states l (Dict.put d fb.partition_id fb)

unfoldable pub restore_failback_state : FailoverManager → ℕ × FailoverManager
unfolding put_states
restore_failback_state m = elim m.store [
  | none ↦ (0, m)
  | some d ↦ (length d, record m { failback_states = put_states d m.failback_states })
]

-- A partition in failback that is neither paused nor assigned is paused.
abbrev pub repaused : ℕ → FailoverManager → FailoverManager
repaused pid m =
    let s = Dict.get m.partition_state pid in
    if is_state paused s || is_state assigned s
    then m
    else record m { partition_state = Dict.put m.partition_state pid paused }

unfoldable pub repause_all : List ℕ → FailoverManager → FailoverManager
repause_all [] m = m
repause_all (pid ∷ l) m = repause_all l (repaused pid m)

-- The answer lists what is pending.
unfoldable pub resume_failback : FailoverManager → List FailbackState × FailoverManager
unfolding restore_failback_state repause_all
resume_failback m =
    let restored = (restore_failback_state m).1 in
    (
      Dict.values restored.failback_states,
      repause_all (Dict.keys restored.failback_states) restored,
    )

-- `range(total_partitions)`, each ASSIGNED
unfoldable pub all_assigned : ℕ → Dict ℕ PartitionState
all_assigned zero = []
all_assigned (suc n) = all_assigned n ++ (n, assigned) ∷ []

-- `__init__`
unfoldable pub init : ℕ → ℕ → Option (Dict ℕ FailbackState) → Bool → FailoverManager
unfolding restore_failback_state all_assigned
init timeout total_partitions store has_callback =
    (restore_failback_state (record {
      heartbeat_timeout = timeout;
      original_timeout = timeout;
      total_partitions = total_partitions;
      workers = [];
      partition_state = all_assigned total_partitions;
      partition_owner = [];
      original_owner = [];
      event_log = [];
      pending_reassignments = [];
      failback_states = [];
      store = store;
      all_healthy_since = 0;
      has_callback = has_callback;
      type_changes = [];
      partition_offsets = [];
    })).1
