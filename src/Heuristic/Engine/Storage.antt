-- ===== src/Heuristic/Engine/Storage.antt =====
-- heuristic/engine.py: what is written to RocksDB and to sketch.bin, and a start on it.
use csdlpt.Prelude.{
  Eq, ℕ, Bool, true, false, ◌&&◌, String, Option, none, some, List, [], ◌∷◌, int_eq, string_eq,
  if◌then◌else◌, keep, length,
}
use csdlpt.Prelude.Mark.{Mark, neg_inf, at}
use csdlpt.Prelude.Dict
use csdlpt.Prelude.Dict.{Dict}
use csdlpt.Sketch.Sliding.{SlidingWindow, to_dict, from_dict}
use csdlpt.Heuristic.ColdStart
use csdlpt.Heuristic.NegativeLag
use csdlpt.Heuristic.Engine.Estimate.{Settings, Estimate}
use csdlpt.Heuristic.Engine.State.{
  HeuristicEngine, LateEvent, late, extreme_lag, future_skew, Tables, Meta, SketchBin, on_store,
}

abbrev pub meta_of : HeuristicEngine → Meta
meta_of e = record {
  W_h = e.est.W_h;
  W_global_h = e.est.W_global_h;
  max_event_time = e.est.max_event_time;
  L_eff = e.est.L_eff;
  in_replay_mode = e.est.in_replay_mode;
  sketch = to_dict e.est.sketch;
  kafka_seek_offset = e.kafka_seek_offset;
}

-- `_persist_late_events`
abbrev pub persist_late_events : HeuristicEngine → Tables → Tables
persist_late_events e t = record t { late_events = some e.late_events }

-- `_clear_persisted_late_events`
unfoldable pub clear_persisted_late_events : HeuristicEngine → HeuristicEngine
clear_persisted_late_events e = record e {
  store = on_store (λ t. record t { late_events = none }) e.store;
}

unfoldable pub checkpoint : HeuristicEngine → HeuristicEngine
checkpoint e = record e {
  store =
      on_store (λ t. persist_late_events e (record t { checkpoint = some (meta_of e) })) e.store;
  sketch_bin = some (record {
    W_h = e.est.W_h;
    W_global_h = e.est.W_global_h;
    L_eff = e.est.L_eff;
    max_event_time = e.est.max_event_time;
    sketch = to_dict e.est.sketch;
  });
}

unfoldable pub put_entries {ℓ} : {K V : Type ℓ} ⦃k : Eq K⦄ → List (K × V) → Dict K V → Dict K V
put_entries [] d = d
put_entries ((k, v) ∷ l) d = put_entries l (Dict.put d k v)

unfoldable pub read_meta : Option Meta → HeuristicEngine → HeuristicEngine
read_meta none e = e
read_meta (some m) e = record e {
  est = record e.est {
    W_h = m.W_h;
    W_global_h = m.W_global_h;
    max_event_time = m.max_event_time;
    L_eff = m.L_eff;
    in_replay_mode = m.in_replay_mode;
    sketch = from_dict m.sketch;
  };
  kafka_seek_offset = m.kafka_seek_offset;
}

-- `_restore_from_store`
unfoldable pub restore_from_store : HeuristicEngine → HeuristicEngine
unfolding put_entries read_meta
restore_from_store e = elim e.store [
  | none ↦ e
  | some t ↦ read_meta t.checkpoint (record e {
    open_windows = put_entries t.ow e.open_windows;
    closed_windows = put_entries t.cw e.closed_windows;
    seen_ids = put_entries t.si e.seen_ids;
  })
]

abbrev pub is_extreme_lag : LateEvent → Bool
is_extreme_lag l = elim l.kind [ late ↦ false | extreme_lag ↦ true | future_skew ↦ false ]

abbrev pub read_late : Option (List LateEvent) → HeuristicEngine → HeuristicEngine
read_late none e = e
read_late (some l) e = record e {
  late_events = l;
  extreme_lag_count = length (keep is_extreme_lag l);
}

-- `_restore_late_events`
unfoldable pub restore_late_events : HeuristicEngine → HeuristicEngine
restore_late_events e = elim e.store [ none ↦ e | some t ↦ read_late t.late_events e ]

abbrev pub is_neg_inf : Mark → Bool
is_neg_inf neg_inf = true
is_neg_inf (at t) = false

abbrev pub read_bin : Option SketchBin → HeuristicEngine → HeuristicEngine
read_bin none e = e
read_bin (some b) e = record e {
  est = record e.est {
    W_h = b.W_h;
    W_global_h = b.W_global_h;
    L_eff = b.L_eff;
    max_event_time = b.max_event_time;
    sketch = from_dict b.sketch;
  };
}

-- `_restore_from_sketch_bin`: only where nothing came from RocksDB.
unfoldable pub restore_from_sketch_bin : HeuristicEngine → HeuristicEngine
restore_from_sketch_bin e =
    if is_neg_inf e.est.W_h && is_neg_inf e.est.max_event_time then read_bin e.sketch_bin e else e

abbrev pub no_estimate : ℕ → Settings → ℕ → ℕ → SlidingWindow → Estimate
no_estimate now c warmup_min_seconds warmup_min_samples sketch = record {
  sketch = sketch;
  cold_start = ColdStart.init now warmup_min_seconds warmup_min_samples c.L_max;
  neg_lag = NegativeLag.init 60000;
  W_h = neg_inf;
  W_h_prev = neg_inf;
  W_global_h = neg_inf;
  max_event_time = neg_inf;
  L_eff = c.L_max;
  L_eff_prev = c.L_max;
  p_current = c.p_normal;
  in_burst = false;
  burst_start = 0;
  quantile_history = [];
  current_alpha = sketch.config.alpha;
  last_alpha_check = 0;
  cached_sketch_count = 0;
  snapshots = [];
  last_snapshot = 0;
  in_replay_mode = false;
  replay_start_time = 0;
  baseline_lag = c.L_max;
  replay_stable_since = 0;
  start_time = now;
  last_wm_update_time = 0;
}

-- `__init__`, without a baseline in the object store. At its end `kafka_seek_offset` is set to 0.
unfoldable pub init :
    ℕ
    → Settings
    → ℕ
    → ℕ
    → SlidingWindow
    → ℕ
    → String
    → Option Tables
    → Option SketchBin
    → HeuristicEngine
unfolding restore_from_store restore_late_events restore_from_sketch_bin
init now c warmup_min_seconds warmup_min_samples sketch partition_id worker_id store sketch_bin =
    record (restore_from_sketch_bin (
      restore_late_events (
        restore_from_store (record {
          settings = c;
          partition_id = partition_id;
          worker_id = worker_id;
          est = no_estimate now c warmup_min_seconds warmup_min_samples sketch;
          open_windows = [];
          closed_windows = [];
          window_closed_at = [];
          late_events = [];
          extreme_lag_count = 0;
          seen_ids = [];
          window_loss = [];
          pending_results = [];
          last_closed_purge = 0;
          last_dedup_sweep = 0;
          kafka_seek_offset = 0;
          last_event_time = now;
          inbound_queue = [];
          queue_maxsize = 500;
          backpressure_drops = 0;
          total_received = 0;
          on_time = 0;
          late_dropped = 0;
          duplicates = 0;
          failed = 0;
          store = store;
          sketch_bin = sketch_bin;
        })))) { kafka_seek_offset = 0 }
