-- ===== src/Strict/Coordinator/Heartbeat.antt =====
-- strict/coordinator.py: `receive_heartbeat`. One reading of the clock serves a whole call.
use csdlpt.Prelude.{
  ℕ, ◌+◌, Bool, false, String, Option, none, some, List, [], ◌∷◌, nat_eq, string_eq, elem, ltb,
  if◌then◌else◌,
}
use csdlpt.Prelude.Mark
use csdlpt.Prelude.Mark.{Mark}
use csdlpt.Prelude.Dict
use csdlpt.Common.Types.{WorkerHeartbeat, active, assigned}
use csdlpt.Strict.Coordinator.State.{Coordinator, PartitionInfo, persist_partition}
use csdlpt.Strict.Coordinator.Global.{update_statuses, compute_global}

-- `worker in tokens and hb.fencing_token < tokens[worker]`
abbrev pub is_stale : ℕ → Option ℕ → Bool
is_stale token none = false
is_stale token (some known) = ltb token known

abbrev pub larger : ℕ → ℕ → ℕ
larger a b = if ltb a b then b else a

-- The entry of a partition after a report: a new one, or the old one moved on.
abbrev pub report : ℕ → String → ℕ → Mark → Bool → Option PartitionInfo → PartitionInfo
report now worker pid lw is_idle none = record {
  partition_id = pid;
  worker_id = worker;
  local_watermark = lw;
  last_update = now;
  status = active;
  state = assigned;
  is_temporary_idle = is_idle;
}
report now worker pid lw is_idle (some p) = record p {
  local_watermark = Mark.max p.local_watermark lw;
  last_update = now;
  worker_id = worker;
  status = active;
  is_temporary_idle = is_idle;
}

unfoldable pub report_partition : ℕ → WorkerHeartbeat → ℕ × Mark → Coordinator → Coordinator
report_partition now hb (pid, lw) c =
    let p =
      report now hb.worker_id pid lw (elem pid hb.idle_partitions) (Dict.get c.partitions pid) in
    persist_partition pid (record c { partitions = Dict.put c.partitions pid p })

unfoldable pub report_partitions : ℕ → WorkerHeartbeat → List (ℕ × Mark) → Coordinator → Coordinator
report_partitions now hb [] c = c
report_partitions now hb (r ∷ rs) c = report_partitions now hb rs (report_partition now hb r c)

-- The lines between the fencing test and the loop.
unfoldable pub note_worker : ℕ → WorkerHeartbeat → Coordinator → Coordinator
note_worker now hb c = record c {
  fencing_tokens =
      Dict.put c.fencing_tokens hb.worker_id
        (larger (Dict.get_or (Dict.get c.fencing_tokens hb.worker_id) 0) hb.fencing_token);
  term = larger c.term hb.fencing_token;
  worker_last_seen = Dict.put c.worker_last_seen hb.worker_id now;
}

-- What a heartbeat that is not fenced off does.
unfoldable pub take_heartbeat : ℕ → WorkerHeartbeat → Coordinator → Coordinator
take_heartbeat now hb c =
    compute_global now
      (update_statuses now (report_partitions now hb hb.partitions (note_worker now hb c)))

unfoldable pub receive_heartbeat : ℕ → WorkerHeartbeat → Coordinator → Coordinator
receive_heartbeat now hb c =
    if is_stale hb.fencing_token (Dict.get c.fencing_tokens hb.worker_id)
    then record c { fencing_violations = c.fencing_violations + 1 }
    else take_heartbeat now hb c
