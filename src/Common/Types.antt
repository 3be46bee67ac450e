-- ===== src/Common/Types.antt =====
-- common/types.py: the dataclasses and enums of the pipeline.
-- Event times are milliseconds; an identifier that the code formats into a string from numbers
-- (`window_id`) is the record of those numbers.
use csdlpt.Prelude.{ℕ, ◌≡◌, ◌↔◌, Bool, true, String, arith, ℤ, eqb_ℤ, ◌==◌, ◌&&◌, List, Eq}
use csdlpt.Prelude.Mark.{Mark}
use csdlpt.Prelude.Dict.{Dict}

pub data WorkerStatus : Type 0 where
  active stale idle failed : WorkerStatus

pub data EvictionState : Type 0 where
  closed uploading uploaded purged : EvictionState

pub data PartitionState : Type 0 where
  assigned reassigning orphaned paused : PartitionState

pub record LogEvent : Type 0 where
  pub event_id : String
  pub event_time : ℤ
  pub status : ℕ
  pub offset : ℕ

pub record PunctuationToken : Type 0 where
  pub T_commit : ℤ
  pub partition_id : ℕ
  pub ingestor_id : String
  pub is_empty : Bool

-- f"{partition_id}_{ws}-{we}"
pub record WindowId : Type 0 where
  pub partition : ℕ
  pub start : ℤ
  pub stop : ℤ

unfoldable pub window_beq : WindowId → WindowId → Bool
window_beq a b = a.partition == b.partition && eqb_ℤ a.start b.start && eqb_ℤ a.stop b.stop

pub window_beq_iff : (a b : WindowId) → (window_beq a b ≡ true) ↔ (a ≡ b)
unfolding window_beq eqb_ℤ
window_beq_iff a b = ground arith

instance abbrev pub window_eq : Eq WindowId
window_eq = record { beq = window_beq; beq_iff = window_beq_iff }

pub record WindowResult : Type 0 where
  pub window_id : WindowId
  pub partition_id : ℕ
  pub window_start : ℤ
  pub window_end : ℤ
  pub count : ℕ
  pub status_500 : ℕ
  pub is_speculative : Bool
  pub version : ℕ

pub record WorkerHeartbeat : Type 0 where
  pub worker_id : String
  pub partitions : Dict ℕ Mark
  pub max_event_time : Mark
  pub timestamp : ℕ
  pub fencing_token : ℕ
  pub idle_partitions : List ℕ
  pub backpressure_partitions : Dict ℕ Bool
