-- ===== src/Strict/Failover/Membership.antt =====
-- strict/failover.py: registration, heartbeats, and the detection of failures.
use csdlpt.Prelude.{
  ℕ, ◌+◌, ◌-◌, ◌*◌, ◌/◌, ◌==◌, ◌&&◌, Bool, true, false, not, String, Option, none, some, List, [],
  ◌∷◌, nat_eq, string_eq, ltb, if◌then◌else◌, length, keep,
}
use csdlpt.Prelude.Dict
use csdlpt.Prelude.Dict.{Dict}
use csdlpt.Common.Types.{
  active, stale, idle, failed, PartitionState, assigned, reassigning, orphaned, paused,
}
use csdlpt.Strict.Failover.State.{
  FailoverManager, WorkerRecord, worker_failed, log_event, owns, update_worker, alive_workers,
}

abbrev pub new_worker : String → WorkerRecord
new_worker w = record {
  worker_id = w;
  last_heartbeat = 0;
  status = active;
  assigned_partitions = [];
  failure_count = 0;
}

-- The worker's record, made if it is missing.
abbrev pub record_of : String → FailoverManager → WorkerRecord
record_of w m = Dict.get_or (Dict.get m.workers w) (new_worker w)

-- The three lines for each partition that `register_worker` and `heartbeat` share.
unfoldable pub claim : String → ℕ → FailoverManager → FailoverManager
unfolding update_worker
claim w pid m = record m {
  workers = update_worker (owns pid) w m.workers;
  partition_owner = Dict.put m.partition_owner pid w;
  original_owner =
      if Dict.has m.original_owner pid then m.original_owner else Dict.put m.original_owner pid w;
}

unfoldable pub claim_all : String → List ℕ → FailoverManager → FailoverManager
unfolding claim
claim_all w [] m = m
claim_all w (pid ∷ l) m = claim_all w l (claim w pid m)

unfoldable pub register_worker : ℕ → String → List ℕ → FailoverManager → FailoverManager
unfolding claim_all
register_worker now w pids m = claim_all w pids (record m {
  workers = Dict.put m.workers w (record (record_of w m) { last_heartbeat = now; status = active });
})

abbrev pub is_state : PartitionState → Option PartitionState → Bool
is_state assigned (some assigned) = true
is_state reassigning (some reassigning) = true
is_state orphaned (some orphaned) = true
is_state paused (some paused) = true
is_state _ _ = false

abbrev pub is_target : String → Option String → Bool
is_target w none = false
is_target w (some t) = string_eq.beq t w

-- A reassignment is confirmed by the heartbeat of the worker that it waits for.
unfoldable pub confirm : String → ℕ → FailoverManager → FailoverManager
confirm w pid m =
    if is_state reassigning (Dict.get m.partition_state pid)
      && is_target w (Dict.get m.pending_reassignments pid)
    then record m {
      partition_state = Dict.put m.partition_state pid assigned;
      pending_reassignments = Dict.remove m.pending_reassignments pid;
    }
    else m

unfoldable pub report_all : String → List ℕ → FailoverManager → FailoverManager
unfolding claim confirm
report_all w [] m = m
report_all w (pid ∷ l) m = report_all w l (confirm w pid (claim w pid m))

-- `dict.update`
unfoldable pub update_offsets : List (ℕ × ℕ) → Dict ℕ ℕ → Dict ℕ ℕ
update_offsets [] d = d
update_offsets ((pid, o) ∷ l) d = update_offsets l (Dict.put d pid o)

abbrev pub heard : ℕ → String → FailoverManager → FailoverManager
heard now w m = record m {
  workers =
      update_worker (λ wr. record wr { last_heartbeat = now; status = active; failure_count = 0 }) w
        m.workers;
}

unfoldable pub heartbeat : ℕ → String → List ℕ → List (ℕ × ℕ) → FailoverManager → FailoverManager
unfolding register_worker report_all update_offsets update_worker
heartbeat now w pids offsets m₀ =
    let m = record m₀ { partition_offsets = update_offsets offsets m₀.partition_offsets } in
    if Dict.has m.workers w then report_all w pids (heard now w m) else register_worker now w pids m

-- `max(3.0, original * 0.7)`. Ages are whole milliseconds, so the part below one makes no difference.
abbrev pub reduced : ℕ → ℕ
reduced original = let r = original * 7 / 10 in if ltb 3000 r then r else 3000

abbrev pub is_failed : WorkerRecord → Bool
is_failed wr = elim wr.status [ active ↦ false | stale ↦ false | idle ↦ false | failed ↦ true ]

unfoldable pub failed_count : FailoverManager → ℕ
failed_count m = length (keep (λ p. is_failed p.1) m.workers)

unfoldable pub all_healthy : FailoverManager → Bool
unfolding alive_workers failed_count
all_healthy m = length (alive_workers m) == length m.workers && failed_count m == 0

-- The second half of `adjust_timeout`: a minute of health restores the timeout.
unfoldable pub watch_health : ℕ → FailoverManager → FailoverManager
unfolding all_healthy
watch_health now m =
    if not (all_healthy m)
    then record m { all_healthy_since = 0 }
    else if m.all_healthy_since == 0
    then record m { all_healthy_since = now }
    else if ltb 60000 (now - m.all_healthy_since)
    then record m { heartbeat_timeout = m.original_timeout; all_healthy_since = 0 }
    else m

unfoldable pub adjust_timeout : ℕ → FailoverManager → FailoverManager
unfolding watch_health
adjust_timeout now m = watch_health now (
    if ltb 1 (failed_count m)
    then record m { heartbeat_timeout = reduced m.original_timeout }
    else m)

-- One worker whose heartbeat is too old.
unfoldable pub fail_worker : ℕ → String → WorkerRecord → FailoverManager → FailoverManager
unfolding log_event
fail_worker now w wr m =
    let m' = if is_failed wr then m else log_event now worker_failed w wr.assigned_partitions m in
    record m' {
      workers =
          Dict.put m.workers w
            (record wr { status = failed; failure_count = wr.failure_count + 1 });
    }

unfoldable pub detect_from :
    ℕ → List (String × WorkerRecord) → FailoverManager → List String × FailoverManager
unfolding fail_worker
detect_from now [] m = ([], m)
detect_from now ((w, wr) ∷ l) m =
    let old = ltb m.heartbeat_timeout (now - wr.last_heartbeat) in
    let (found, m') = detect_from now l (if old then fail_worker now w wr m else m) in
    (if old then w ∷ found else found, m')

unfoldable pub detect_failures : ℕ → FailoverManager → List String × FailoverManager
unfolding detect_from adjust_timeout
detect_failures now m =
    let (found, m') = detect_from now m.workers m in (found, adjust_timeout now m')
