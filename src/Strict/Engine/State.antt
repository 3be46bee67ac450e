-- ===== src/Strict/Engine/State.antt =====
-- strict/engine.py: the state of `StrictWatermarkEngine`, and what it writes to its RocksDB store.
-- `__init__` is left out: it reads a name `watermark` that nothing binds, where it means
-- `delta_base_s`, and raises. An engine is any value of its attributes. `uploads` are the windows handed to the tiered storage, oldest first. Latencies are not kept.
use csdlpt.Prelude.{ℕ, Bool, String, Option, none, some, List, ℤ, int_eq, string_eq}
use csdlpt.Prelude.Mark.{Mark}
use csdlpt.Prelude.Dict
use csdlpt.Prelude.Dict.{Dict}
use csdlpt.Common.Types.{WindowResult, EvictionState}
use csdlpt.Strict.Output.{OutputManager, Saved}

pub record WindowState : Type 0 where
  pub count : ℕ
  pub status_500 : ℕ

abbrev pub empty_window : WindowState
empty_window = record { count = 0; status_500 = 0 }

-- The counters of common/metrics.py that the engine moves.
pub record Metrics : Type 0 where
  pub total_received : ℕ
  pub on_time : ℕ
  pub late_dropped : ℕ
  pub duplicates : ℕ
  pub backpressure_drops : ℕ
  pub non_monotonic_punctuation : ℕ

abbrev pub no_metrics : Metrics
no_metrics = record {
  total_received = 0;
  on_time = 0;
  late_dropped = 0;
  duplicates = 0;
  backpressure_drops = 0;
  non_monotonic_punctuation = 0;
}

-- The value under "meta:checkpoint", as far as it is read back.
pub record Meta : Type 0 where
  pub last_T_commit : Mark
  pub local_watermark : Mark
  pub max_event_time : Mark
  pub watermark : Mark
  pub last_checkpoint_time : ℕ

-- The store by prefix: "ow:", "cw:", "si:", "meta:".
pub record Tables : Type 0 where
  pub ow : Dict ℤ WindowState
  pub cw : Dict ℤ (WindowResult × EvictionState)
  pub si : Dict String ℤ
  pub checkpoint : Option Meta

-- checkpoint.json, as far as it is read back.
pub record Snapshot : Type 0 where
  pub last_T_commit : Mark
  pub local_watermark : Mark
  pub max_event_time : Mark
  pub watermark : Mark
  pub kafka_committed_offset : ℕ
  pub open_windows : Dict ℤ WindowState
  pub seen_ids : List String
  pub last_checkpoint_time : ℕ
  pub partition_id : ℕ

pub record Engine : Type 0 where
  pub size : ℕ
  pub delta_base : ℤ
  pub max_queue : ℕ
  pub partition_id : ℕ
  pub raft_term : ℕ
  pub last_T_commit : Mark
  pub local_watermark : Mark
  pub max_event_time : Mark
  pub watermark : Mark
  pub kafka_committed_offset : ℕ
  pub punctuation_total : ℕ
  pub open_windows : Dict ℤ WindowState
  pub closed_windows : Dict ℤ WindowResult
  pub seen_ids : Dict String ℤ
  pub last_checkpoint_time : ℕ
  pub last_bulk_cleanup : ℕ
  pub metrics : Metrics
  pub output : Option OutputManager
  pub has_storage : Bool
  pub uploads : List WindowResult
  pub store : Option Tables
  pub checkpoint_file : Option Snapshot
  pub emitted_file : Option Saved

-- A write, if there is a store.
abbrev pub on_store : (Tables → Tables) → Option Tables → Option Tables
on_store f none = none
on_store f (some t) = some (f t)

-- `_persist_open_window`
unfoldable pub persist_open_window : ℤ → Dict ℤ WindowState → Tables → Tables
persist_open_window ws windows t = elim (Dict.get windows ws) [
  | none ↦ t
  | some st ↦ record t { ow = Dict.put t.ow ws st }
]

-- `_delete_open_window`
unfoldable pub delete_open_window : ℤ → Tables → Tables
delete_open_window ws t = record t { ow = Dict.remove t.ow ws }

-- `_persist_closed_window`
unfoldable pub persist_closed_window : ℤ → WindowResult → EvictionState → Tables → Tables
persist_closed_window ws r eviction t = record t { cw = Dict.put t.cw ws (r, eviction) }

-- `_purge_window_from_store`
unfoldable pub purge_window_from_store : ℤ → Tables → Tables
purge_window_from_store ws t = record t { cw = Dict.remove t.cw ws }

-- `_persist_seen_id`
unfoldable pub persist_seen_id : String → Dict String ℤ → Tables → Tables
persist_seen_id eid seen t = elim (Dict.get seen eid) [
  | none ↦ t
  | some ts ↦ record t { si = Dict.put t.si eid ts }
]

-- `_delete_seen_id`
unfoldable pub delete_seen_id : String → Tables → Tables
delete_seen_id eid t = record t { si = Dict.remove t.si eid }
