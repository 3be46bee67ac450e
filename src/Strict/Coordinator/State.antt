-- ===== src/Strict/Coordinator/State.antt =====
-- strict/coordinator.py: the state of `StrictCoordinator`. Times of the wall clock and of events are
-- milliseconds. `disk` is what the RocksDB holds, `has_store` that `_store` is not None.
use csdlpt.Prelude.{ℕ, Bool, true, false, String, Option, none, some, ℤ, nat_eq}
use csdlpt.Prelude.Mark.{Mark}
use csdlpt.Prelude.Dict
use csdlpt.Prelude.Dict.{Dict}
use csdlpt.Common.Types.{WorkerStatus, PartitionState}

pub record PartitionInfo : Type 0 where
  pub partition_id : ℕ
  pub worker_id : String
  pub local_watermark : Mark
  pub last_update : ℕ
  pub status : WorkerStatus
  pub state : PartitionState
  pub is_temporary_idle : Bool

pub data SkewStatus : Type 0 where
  skew_ok skew_warning skew_critical : SkewStatus

pub data LagStatus : Type 0 where
  lag_ok lag_warning lag_high lag_critical : LagStatus

pub data CombinedStatus : Type 0 where
  initializing healthy critical degraded warning : CombinedStatus

pub data Diagnosis : Type 0 where
  starting all_well one_node_slow cluster_slow cluster_and_node_slow : Diagnosis

-- The value under "meta:state".
pub record StateMeta : Type 0 where
  pub term : ℕ
  pub W_global : Mark

pub record Disk : Type 0 where
  pub part : Dict ℕ PartitionInfo
  pub state : Option StateMeta

-- The file of `save_state`.
pub record StateFile : Type 0 where
  pub term : ℕ
  pub W_global : Mark
  pub partitions : Dict ℕ PartitionInfo

pub record Coordinator : Type 0 where
  pub delta_base : ℤ
  pub partitions : Dict ℕ PartitionInfo
  pub W_global : Mark
  pub W_global_prev : Mark
  pub term : ℕ
  pub worker_last_seen : Dict String ℕ
  pub fencing_tokens : Dict String ℕ
  pub fencing_violations : ℕ
  pub node_watermarks : Dict String ℤ
  pub node_skew_max_ms : ℤ
  pub watermark_lag : ℤ
  pub skew_status : SkewStatus
  pub lag_status : LagStatus
  pub combined_status : CombinedStatus
  pub combined_diagnosis : Diagnosis
  pub has_store : Bool
  pub disk : Disk
  pub state_file : Option StateFile

-- `_persist_partition`
unfoldable pub persist_partition : ℕ → Coordinator → Coordinator
persist_partition pid c = elim c.has_store [
  | false ↦ c
  | true ↦ elim (Dict.get c.partitions pid) [
    | none ↦ c
    | some p ↦ record c { disk = record c.disk { part = Dict.put c.disk.part pid p } }
  ]
]

-- `_delete_partition`, which nothing calls
abbrev delete_partition : ℕ → Coordinator → Coordinator
delete_partition pid c = elim c.has_store [
  | false ↦ c
  | true ↦ record c { disk = record c.disk { part = Dict.remove c.disk.part pid } }
]
