-- ===== src/Strict/Failover/State.antt =====
-- strict/failover.py: the state of `FailoverManager` and its queries. Times are milliseconds; a set of
-- partitions is a list. The text `details` of an event is left out.
use csdlpt.Prelude.{
  ℕ, zero, suc, ◌-◌, Bool, true, false, not, String, Option, none, some, List, [], ◌∷◌, ◌++◌,
  nat_eq, string_eq, elem, ltb, if◌then◌else◌, length, drop, keep, map,
}
use csdlpt.Prelude.Dict
use csdlpt.Prelude.Dict.{Dict}
use csdlpt.Common.Types.{WorkerStatus, active, stale, idle, failed, PartitionState, assigned}

pub data FailbackStep : Type 0 where
  pause flush_ack kafka_reassign seek_resume complete : FailbackStep

pub data FailoverEvent : Type 0 where
  worker_failed worker_recovered partition_reassigned failback_started failback_complete :
      FailoverEvent
  failback_step_pause failback_step_flush_ack failback_step_kafka_reassign : FailoverEvent
  failback_step_seek_resume : FailoverEvent

pub data PartitionType : Type 0 where
  recovery normal : PartitionType

pub record WorkerRecord : Type 0 where
  pub worker_id : String
  pub last_heartbeat : ℕ
  pub status : WorkerStatus
  pub assigned_partitions : List ℕ
  pub failure_count : ℕ

pub record FailoverEventRecord : Type 0 where
  pub event : FailoverEvent
  pub worker_id : String
  pub partition_ids : List ℕ
  pub timestamp : ℕ

pub record FailbackState : Type 0 where
  pub partition_id : ℕ
  pub step : FailbackStep
  pub started_at : ℕ
  pub last_step_at : ℕ
  pub from_worker : String
  pub to_worker : String

-- `store` is what RocksDB holds under "fb:". The calls of `on_partition_type_change`, if it is set,
-- are appended to `type_changes`.
pub record FailoverManager : Type 0 where
  pub heartbeat_timeout : ℕ
  pub original_timeout : ℕ
  pub total_partitions : ℕ
  pub workers : Dict String WorkerRecord
  pub partition_state : Dict ℕ PartitionState
  pub partition_owner : Dict ℕ String
  pub original_owner : Dict ℕ String
  pub event_log : List FailoverEventRecord
  pub pending_reassignments : Dict ℕ String
  pub failback_states : Dict ℕ FailbackState
  pub store : Option (Dict ℕ FailbackState)
  pub all_healthy_since : ℕ
  pub has_callback : Bool
  pub type_changes : List (ℕ × PartitionType)
  pub partition_offsets : Dict ℕ ℕ

-- The log keeps its last 100 entries once it is longer than 200.
abbrev pub trim : List FailoverEventRecord → List FailoverEventRecord
trim log = if ltb 200 (length log) then drop (length log - 100) log else log

-- `_log_event`
unfoldable pub log_event : ℕ → FailoverEvent → String → List ℕ → FailoverManager → FailoverManager
log_event now ev w pids m = record m {
  event_log = trim (
      m.event_log
      ++ (record { event = ev; worker_id = w; partition_ids = pids; timestamp = now }) ∷ []);
}

-- `self.on_partition_type_change(pid, kind)`, if it is not None
unfoldable pub notify : ℕ → PartitionType → FailoverManager → FailoverManager
notify pid kind m = record m {
  type_changes = if m.has_callback then m.type_changes ++ (pid, kind) ∷ [] else m.type_changes;
}

-- `add` and `discard` of a set
unfoldable pub add_partition : ℕ → List ℕ → List ℕ
add_partition pid l = if elem pid l then l else pid ∷ l

unfoldable pub discard_partition : ℕ → List ℕ → List ℕ
discard_partition pid l = keep (λ p. not (nat_eq.beq p pid)) l

abbrev pub owns : ℕ → WorkerRecord → WorkerRecord
owns pid wr = record wr { assigned_partitions = add_partition pid wr.assigned_partitions }

abbrev pub disowns : ℕ → WorkerRecord → WorkerRecord
disowns pid wr = record wr { assigned_partitions = discard_partition pid wr.assigned_partitions }

-- A change of a worker's record, if the worker is known.
unfoldable pub update_worker :
    (WorkerRecord → WorkerRecord) → String → Dict String WorkerRecord → Dict String WorkerRecord
update_worker f w d = elim (Dict.get d w) [ none ↦ d | some wr ↦ Dict.put d w (f wr) ]

-- `status in (ACTIVE, STALE)`
abbrev pub is_alive : WorkerRecord → Bool
is_alive wr = elim wr.status [ active ↦ true | stale ↦ true | idle ↦ false | failed ↦ false ]

unfoldable pub alive_workers : FailoverManager → List String
alive_workers m = map (λ p. p.0) (keep (λ p. is_alive p.1) m.workers)

unfoldable pub get_partition_state : FailoverManager → ℕ → PartitionState
get_partition_state m pid = Dict.get_or (Dict.get m.partition_state pid) assigned

unfoldable pub get_partition_owner : FailoverManager → ℕ → Option String
get_partition_owner m pid = Dict.get m.partition_owner pid

abbrev pub same_worker : Option String → Option String → Bool
same_worker none none = true
same_worker (some a) (some b) = string_eq.beq a b
same_worker _ _ = false

unfoldable pub types_below : ℕ → FailoverManager → Dict ℕ PartitionType
types_below zero m = []
types_below (suc n) m =
    types_below n m
    ++ (
      n,
      if same_worker (Dict.get m.partition_owner n) (Dict.get m.original_owner n)
          then normal
          else recovery,
    )
      ∷ []

unfoldable pub get_partition_types : FailoverManager → Dict ℕ PartitionType
unfolding types_below
get_partition_types m = types_below m.total_partitions m

unfoldable pub get_recovery_offset : FailoverManager → ℕ → ℕ
get_recovery_offset m pid = Dict.get_or (Dict.get m.partition_offsets pid) 0

-- The path of the checkpoint, which names the partition, is left out.
pub record RecoveryInfo : Type 0 where
  pub original_worker : String
  pub current_owner : String
  pub last_offset : ℕ

unfoldable pub get_partition_recovery_info : FailoverManager → ℕ → RecoveryInfo
get_partition_recovery_info m pid = record {
  original_worker = Dict.get_or (Dict.get m.original_owner pid) "unknown";
  current_owner = Dict.get_or (Dict.get m.partition_owner pid) "unknown";
  last_offset = Dict.get_or (Dict.get m.partition_offsets pid) 0;
}
