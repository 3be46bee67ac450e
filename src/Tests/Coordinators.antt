-- ===== src/Tests/Coordinators.antt =====
-- strict/coordinator.py: tests of a coordinator with two workers.
use csdlpt.Prelude.{
  ℕ, ◌+◌, ◌≡◌, refl, arith, true, false, ◌⊎◌, none, [], ◌∷◌, pos, int_eq, string_eq, nat_eq, elem,
  keep,
}
use csdlpt.Prelude.Mark.{neg_inf, at, ◌⊑◌}
use csdlpt.Prelude.Dict
use csdlpt.Common.Types.{WorkerHeartbeat, active, assigned}
use csdlpt.Strict.Coordinator.State.{Coordinator, PartitionInfo, Disk, persist_partition}
use csdlpt.Strict.Coordinator.Global.{compute_global, update_statuses, status_of_age}
use csdlpt.Strict.Coordinator.Heartbeat.{
  receive_heartbeat, take_heartbeat, report_partition, report_partitions, note_worker,
}
use csdlpt.Strict.Coordinator.Persist.{init, close, load_from_store}
use csdlpt.Strict.Coordinator.Locals.{local}
use csdlpt.Strict.Coordinator.Watermark.{
  receive_heartbeat-mono, receive_heartbeat-bound, receive_heartbeat-local,
}
use csdlpt.Strict.Coordinator.Fencing.{receive_all, receive_all_fences}
use csdlpt.Strict.Coordinator.Restart.{receives, checkpoints, run, run_forgets}

abbrev heartbeat : ℕ → WorkerHeartbeat
heartbeat token = record {
  worker_id = "w";
  partitions = (0, at (pos 5000)) ∷ (1, at (pos 7000)) ∷ [];
  max_event_time = at (pos 20000);
  timestamp = 0;
  fencing_token = token;
  idle_partitions = [];
  backpressure_partitions = [];
}

abbrev empty_disk : Disk
empty_disk = record { part = []; state = none }

abbrev new_coordinator : Coordinator
new_coordinator = init (pos 10000) true empty_disk

receive_heartbeat-mono_example :
    (new_coordinator.W_global ⊑ (receive_heartbeat 100 (heartbeat 2) new_coordinator).W_global)
    × ((receive_heartbeat 100 (heartbeat 2) new_coordinator).W_global
        ⊑ (receive_heartbeat 100 (heartbeat 2) new_coordinator).W_global_prev)
unfolding init load_from_store
receive_heartbeat-mono_example = receive_heartbeat-mono 100 (heartbeat 2) new_coordinator tt

abbrev partition_info : PartitionInfo
partition_info = record {
  partition_id = 1;
  worker_id = "w";
  local_watermark = at (pos 7000);
  last_update = 100;
  status = active;
  state = assigned;
  is_temporary_idle = false;
}

receive_heartbeat-bound_example :
    ((receive_heartbeat 100 (heartbeat 2) new_coordinator).W_global ≡ neg_inf)
    ⊎ ((receive_heartbeat 100 (heartbeat 2) new_coordinator).W_global ⊑ at (pos 7000))
unfolding init load_from_store Dict.get receive_heartbeat take_heartbeat compute_global keep
    update_statuses report_partitions report_partition persist_partition note_worker Dict.put
    status_of_age elem
receive_heartbeat-bound_example =
    receive_heartbeat-bound 100 (heartbeat 2) new_coordinator 1 partition_info refl refl refl

receive_heartbeat-local_example :
    (local new_coordinator 1 ⊑ local (receive_heartbeat 100 (heartbeat 2) new_coordinator) 1)
    × (Dict.get_or (Dict.get (heartbeat 2).partitions 1) neg_inf
        ⊑ local (receive_heartbeat 100 (heartbeat 2) new_coordinator) 1)
unfolding init load_from_store Dict.get
receive_heartbeat-local_example = receive_heartbeat-local 100 (heartbeat 2) new_coordinator 1 refl

receive_all_fences_example :
    let d =
      receive_all ((150, heartbeat 3) ∷ []) (receive_heartbeat 100 (heartbeat 2) new_coordinator) in
    receive_heartbeat 200 (heartbeat 1) d
    ≡ record d { fencing_violations = d.fencing_violations + 1 }
receive_all_fences_example =
    receive_all_fences 100 200 (heartbeat 2) (heartbeat 1) ((150, heartbeat 3) ∷ []) new_coordinator
      refl (omega arith)

run_forgets_example :
    let c =
      init
        (pos 10000)
        true
        (close (
          run
            ((100, receives (heartbeat 2)) ∷ (200, checkpoints) ∷ [])
            (init (pos 10000) true empty_disk))).disk in
    (c.term ≡ 0) × (c.W_global ≡ neg_inf)
run_forgets_example =
    run_forgets (pos 10000) (pos 10000) empty_disk
      ((100, receives (heartbeat 2)) ∷ (200, checkpoints) ∷ []) refl
