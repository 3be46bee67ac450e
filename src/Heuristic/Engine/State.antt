-- ===== src/Heuristic/Engine/State.antt =====
-- heuristic/engine.py: the state of `HeuristicWatermarkEngine`, and its RocksDB store by key prefix.
-- Latencies and payloads are not kept.
use csdlpt.Prelude.{ℕ, ◌+◌, Bool, String, Option, none, some, List, ℤ, int_eq, string_eq}
use csdlpt.Prelude.Mark.{Mark}
use csdlpt.Prelude.Dict
use csdlpt.Prelude.Dict.{Dict}
use csdlpt.Common.Types.{LogEvent, WindowId, WindowResult}
use csdlpt.Sketch.Sliding.{SketchDict}
use csdlpt.Heuristic.Engine.Estimate.{Estimate, Settings}

pub record WindowAggregate : Type 0 where
  pub count : ℕ
  pub status_500 : ℕ

-- What an entry of `late_events` is marked with.
pub data LateKind : Type 0 where
  late extreme_lag future_skew : LateKind

pub record LateEvent : Type 0 where
  pub event_id : String
  pub T_event : ℤ
  pub arrival_time : ℕ
  pub lag : ℤ
  pub W_h_at_arrival : Mark
  pub lateness : ℤ
  pub partition_id : ℕ
  pub original_status : ℕ
  pub worker_id : String
  pub kind : LateKind

pub record Loss : Type 0 where
  pub late : ℕ
  pub total : ℕ

-- The value under "meta:checkpoint".
pub record Meta : Type 0 where
  pub W_h : Mark
  pub W_global_h : Mark
  pub max_event_time : Mark
  pub L_eff : ℤ
  pub in_replay_mode : Bool
  pub sketch : SketchDict
  pub kafka_seek_offset : ℕ

-- The store by prefix: "ow:", "cw:", "si:", "meta:".
pub record Tables : Type 0 where
  pub ow : Dict ℤ WindowAggregate
  pub cw : Dict ℤ WindowResult
  pub si : Dict String ℕ
  pub late_events : Option (List LateEvent)
  pub checkpoint : Option Meta

-- sketch.bin, as far as it is read back.
pub record SketchBin : Type 0 where
  pub W_h : Mark
  pub W_global_h : Mark
  pub L_eff : ℤ
  pub max_event_time : Mark
  pub sketch : SketchDict

-- `failed` is no attribute: it counts the calls of `process` in which a read of the sketch raised a
-- ValueError after the event was remembered and before it was routed.
pub record HeuristicEngine : Type 0 where
  pub settings : Settings
  pub partition_id : ℕ
  pub worker_id : String
  pub est : Estimate
  pub open_windows : Dict ℤ WindowAggregate
  pub closed_windows : Dict ℤ WindowResult
  pub window_closed_at : Dict ℤ ℤ
  pub late_events : List LateEvent
  pub extreme_lag_count : ℕ
  pub seen_ids : Dict String ℕ
  pub window_loss : Dict WindowId Loss
  pub pending_results : List WindowResult
  pub last_closed_purge : ℕ
  pub last_dedup_sweep : ℕ
  pub kafka_seek_offset : ℕ
  pub last_event_time : ℕ
  pub inbound_queue : List LogEvent
  pub queue_maxsize : ℕ
  pub backpressure_drops : ℕ
  pub total_received : ℕ
  pub on_time : ℕ
  pub late_dropped : ℕ
  pub duplicates : ℕ
  pub failed : ℕ
  pub store : Option Tables
  pub sketch_bin : Option SketchBin

abbrev pub on_store : (Tables → Tables) → Option Tables → Option Tables
on_store f none = none
on_store f (some t) = some (f t)

-- `_persist_open_window`
unfoldable pub persist_open_window : ℤ → HeuristicEngine → Option Tables
persist_open_window ws e = elim (Dict.get e.open_windows ws) [
  | none ↦ e.store
  | some agg ↦ on_store (λ t. record t { ow = Dict.put t.ow ws agg }) e.store
]

-- `_delete_open_window`
abbrev pub delete_open_window : ℤ → Tables → Tables
delete_open_window ws t = record t { ow = Dict.remove t.ow ws }

-- `_persist_closed_window`
abbrev pub persist_closed_window : ℤ → WindowResult → Tables → Tables
persist_closed_window ws r t = record t { cw = Dict.put t.cw ws r }

-- `_persist_seen_id`
abbrev pub persist_seen_id : String → ℕ → Tables → Tables
persist_seen_id event_id ts t = record t { si = Dict.put t.si event_id ts }

-- `get_seek_offset`
unfoldable pub get_seek_offset : HeuristicEngine → ℕ
get_seek_offset e = e.kafka_seek_offset + 1
