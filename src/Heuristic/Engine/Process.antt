-- ===== src/Heuristic/Engine/Process.antt =====
-- heuristic/engine.py: `process`.
use csdlpt.Prelude.{
  ℕ, ◌+◌, Bool, true, false, not, String, Option, none, some, List, [], ◌∷◌, ◌++◌, ℤ, pos, ◌-ℤ◌,
  ltb_ℤ, int_eq, string_eq, ltb, leb, ◌==◌, if◌then◌else◌, keep, length,
}
use csdlpt.Prelude.Mark
use csdlpt.Prelude.Mark.{Mark, neg_inf, at}
use csdlpt.Prelude.Dict
use csdlpt.Prelude.Dict.{Dict}
use csdlpt.Common.Types.{LogEvent, WindowId, window_eq}
use csdlpt.Common.Window.{window_start, window_id}
use csdlpt.Sketch.Sliding
use csdlpt.Sketch.Sliding.{SlidingWindow, total_count}
use csdlpt.Heuristic.Engine.Estimate.{Maps, Settings, Estimate}
use csdlpt.Heuristic.Engine.Replay.{take_snapshot, check_exit_replay}
use csdlpt.Heuristic.Engine.Watermark.{compute_watermark}
use csdlpt.Heuristic.Engine.Sampling.{observe, update_L_eff, recover}
use csdlpt.Heuristic.Engine.State.{
  HeuristicEngine, WindowAggregate, LateEvent, LateKind, late, extreme_lag, future_skew, Loss,
  on_store, persist_open_window, persist_seen_id,
}
use csdlpt.Heuristic.Engine.Close.{close_windows, purge_old_closed_windows}

-- `process` returns None or a latency, or it raises the ValueError of a read of the sketch.
pub data Outcome : Type 0 where
  no_latency latency value_error : Outcome

-- `_purge_seen_ids`: by the time to live of 60 seconds.
abbrev pub is_fresh : ℕ → String × ℕ → Bool
is_fresh now p = leb now (p.1 + 60000)

unfoldable pub remove_ids : List String → Dict String ℕ → Dict String ℕ
remove_ids [] d = d
remove_ids (k ∷ l) d = remove_ids l (Dict.remove d k)

unfoldable pub expired_ids : ℕ → HeuristicEngine → List String
expired_ids now e = Dict.keys (keep (λ p. not (is_fresh now p)) e.seen_ids)

-- The store is cleared and written again every five minutes.
abbrev pub compact : ℕ → HeuristicEngine → HeuristicEngine
compact now e = elim e.store [
  | none ↦ e
  | some t ↦
      if ltb now (e.last_dedup_sweep + 300000)
      then e
      else record e { last_dedup_sweep = now; store = some (record t { si = e.seen_ids }) }
]

unfoldable pub purge_seen_ids : ℕ → HeuristicEngine → HeuristicEngine
unfolding remove_ids expired_ids
purge_seen_ids now e =
    let ids = expired_ids now e in
    compact now (record e {
      seen_ids = remove_ids ids e.seen_ids;
      store = on_store (λ t. record t { si = remove_ids ids t.si }) e.store;
    })

abbrev pub late_event : LateKind → ℤ → LogEvent → ℕ → HeuristicEngine → LateEvent
late_event kind lateness ev arrival_time e = record {
  event_id = ev.event_id;
  T_event = ev.event_time;
  arrival_time = arrival_time;
  lag = pos arrival_time -ℤ ev.event_time;
  W_h_at_arrival = e.est.W_h;
  lateness = lateness;
  partition_id = e.partition_id;
  original_status = ev.status;
  worker_id = e.worker_id;
  kind = kind;
}

-- To the dead letter queue.
unfoldable pub drop_late : LateEvent → HeuristicEngine → HeuristicEngine
drop_late l e = record e {
  late_dropped = e.late_dropped + 1;
  late_events = e.late_events ++ l ∷ [];
}

-- The same for an anomaly.
unfoldable pub drop_anomaly : LateEvent → HeuristicEngine → HeuristicEngine
unfolding drop_late
drop_anomaly l e = drop_late l (record e { extreme_lag_count = e.extreme_lag_count + 1 })

-- `W_h - et if et < W_h else 0`
unfoldable pub lateness_of : Mark → ℤ → ℤ
lateness_of neg_inf t = pos 0
lateness_of (at w) t = if ltb_ℤ t w then w -ℤ t else pos 0

abbrev pub errors_of : ℕ → ℕ
errors_of status = if status == 500 then 1 else 0

abbrev pub with_event : ℕ → Option WindowAggregate → WindowAggregate
with_event status none = record { count = 1; status_500 = errors_of status }
with_event status (some agg) = record {
  count = agg.count + 1;
  status_500 = agg.status_500 + errors_of status;
}

-- An event for a window that is open, or is opened.
unfoldable pub count_event : ℤ → ℕ → HeuristicEngine → HeuristicEngine
unfolding persist_open_window
count_event ws status e =
    let e' = record e {
      open_windows = Dict.put e.open_windows ws (with_event status (Dict.get e.open_windows ws));
      on_time = e.on_time + 1;
    } in
    record e' { store = persist_open_window ws e' }

abbrev pub no_loss : Loss
no_loss = record { late = 0; total = 0 }

abbrev pub loss_of : WindowId → HeuristicEngine → Loss
loss_of w e = Dict.get_or (Dict.get e.window_loss w) no_loss

abbrev pub note_loss : WindowId → Loss → HeuristicEngine → HeuristicEngine
note_loss w l e = record e { window_loss = Dict.put e.window_loss w l }

abbrev pub is_extreme : LogEvent → ℕ → HeuristicEngine → Bool
is_extreme ev arrival_time e = ltb_ℤ e.settings.max_lag_accepted (pos arrival_time -ℤ ev.event_time)

-- "Route event to window or DLQ"
unfoldable pub route : LogEvent → ℕ → HeuristicEngine → HeuristicEngine
unfolding drop_anomaly drop_late count_event lateness_of
route ev arrival_time e =
    let ws = window_start e.settings.size ev.event_time in
    let w = window_id e.settings.size e.partition_id ws in
    let l = loss_of w e in
    if is_extreme ev arrival_time e
    then drop_anomaly (late_event extreme_lag (pos arrival_time -ℤ ev.event_time) ev arrival_time e)
        (note_loss w l e)
    else if Dict.has e.closed_windows ws
    then drop_late (late_event late (lateness_of e.est.W_h ev.event_time) ev arrival_time e)
        (note_loss w (record { late = l.late + 1; total = l.total + 1 }) e)
    else count_event ws ev.status (note_loss w (record { late = l.late; total = l.total + 1 }) e)

-- `et - arrival_time > max_future_skew_s`
unfoldable pub is_future : LogEvent → ℕ → HeuristicEngine → Bool
is_future ev arrival_time e =
    ltb_ℤ (pos e.settings.max_future_skew) (ev.event_time -ℤ pos arrival_time)

-- The periodic snapshot.
abbrev pub snapshot_if_due : ℕ → Settings → Estimate → Estimate
snapshot_if_due now c est =
    if leb (est.last_snapshot + c.snapshot_interval) now
    then record (take_snapshot now c est) { last_snapshot = now }
    else est

abbrev pub fail : HeuristicEngine → Outcome × HeuristicEngine
fail e = (value_error, record e { failed = e.failed + 1 })

-- The watermark is computed unless the update of `L_eff` raised.
unfoldable pub with_watermark : ℕ → Settings → Bool × Estimate → Bool × Estimate
with_watermark now c (true, est) = (true, est)
with_watermark now c (false, est) = (false, compute_watermark now c est)

module _ (maps : Maps) where
  -- From "Compute lag" to "Update L_eff and watermark". The answer tells whether it raises.
  unfoldable pub estimate : ℕ → LogEvent → ℕ → HeuristicEngine → Bool × Estimate
  unfolding with_watermark
  estimate now ev arrival_time e =
      let c = e.settings in
      let est = record e.est {
        max_event_time = Mark.max e.est.max_event_time (at ev.event_time);
      } in
      with_watermark now c (
        update_L_eff maps now c e.total_received
          (observe maps now c (pos arrival_time -ℤ ev.event_time) arrival_time est))

  -- After the windows are closed: the ends of the replay mode and of the fallback.
  unfoldable pub settle_modes : ℕ → Settings → Estimate → Bool × Estimate
  settle_modes now c est = recover maps now c (check_exit_replay now c est)

  -- Reads of the sketch, up to one that raises. They may fill its cache.
  unfoldable pub read_each : ℕ → List ℕ → SlidingWindow → Bool × SlidingWindow
  read_each now [] s = (false, s)
  read_each now (q ∷ l) s =
      let (answer, s') = Sliding.quantile maps.floats now q s in
      let rest = read_each now l s' in elim answer [ none ↦ (true, s') | some v ↦ rest ]

  -- The three reads for the metrics. The answer tells whether one raises.
  unfoldable pub read_metrics : ℕ → Estimate → Bool × Estimate
  unfolding read_each
  read_metrics now est =
      if ltb 0 (total_count est.sketch)
      then (let (bad, s) = read_each now (500000 ∷ 950000 ∷ 990000 ∷ []) est.sketch in
          (bad, record est { sketch = s }))
      else (false, est)

  -- From "Route event to window or DLQ" on.
  unfoldable pub finish : ℕ → LogEvent → ℕ → HeuristicEngine → Outcome × HeuristicEngine
  unfolding route read_metrics
  finish now ev arrival_time e =
      let routed = route ev arrival_time e in
      let (bad, est) = read_metrics now (snapshot_if_due now routed.settings routed.est) in
      (if bad then value_error else latency, record routed { est = est })

  unfoldable pub after_modes :
      ℕ → LogEvent → ℕ → HeuristicEngine → Bool × Estimate → Outcome × HeuristicEngine
  unfolding finish
  after_modes now ev arrival_time e (true, est) = fail (record e { est = est })
  after_modes now ev arrival_time e (false, est) =
      finish now ev arrival_time (record e { est = est })

  unfoldable pub after_estimate :
      ℕ → LogEvent → ℕ → HeuristicEngine → Bool × Estimate → Outcome × HeuristicEngine
  unfolding after_modes close_windows settle_modes
  after_estimate now ev arrival_time e (true, est) =
      fail (record e { est = est; last_event_time = arrival_time })
  after_estimate now ev arrival_time e (false, est) =
      let closed = close_windows now (record e { est = est; last_event_time = arrival_time }) in
      after_modes now ev arrival_time closed (settle_modes now closed.settings closed.est)

  unfoldable pub admit : ℕ → LogEvent → ℕ → HeuristicEngine → Outcome × HeuristicEngine
  unfolding estimate after_estimate
  admit now ev arrival_time e =
      after_estimate now ev arrival_time e (estimate now ev arrival_time e)

  -- An event that is new: it is remembered, and an anomaly of the future goes no further.
  unfoldable pub accept : ℕ → LogEvent → ℕ → HeuristicEngine → Outcome × HeuristicEngine
  unfolding purge_seen_ids purge_old_closed_windows is_future drop_anomaly admit
  accept now ev arrival_time e₀ =
      let e = purge_old_closed_windows now (
        purge_seen_ids now (record e₀ {
          seen_ids = Dict.put e₀.seen_ids ev.event_id arrival_time;
          store = on_store (persist_seen_id ev.event_id arrival_time) e₀.store;
        })) in
      if is_future ev arrival_time e
      then (latency, drop_anomaly (late_event future_skew (pos 0) ev arrival_time e) e)
      else admit now ev arrival_time e

  -- The oldest event of the queue.
  unfoldable pub dequeue : ℕ → ℕ → List LogEvent → HeuristicEngine → Outcome × HeuristicEngine
  unfolding accept
  dequeue now arrival_time [] e = (no_latency, e)
  dequeue now arrival_time (ev ∷ rest) e₀ =
      let e = record e₀ { inbound_queue = rest; total_received = e₀.total_received + 1 } in
      if Dict.has e.seen_ids ev.event_id
      then (no_latency, record e { duplicates = e.duplicates + 1 })
      else accept now ev arrival_time e

  unfoldable pub process : ℕ → ℕ → LogEvent → HeuristicEngine → Outcome × HeuristicEngine
  unfolding dequeue
  process now arrival_time ev e =
      if leb e.queue_maxsize (length e.inbound_queue)
      then (no_latency, record e { backpressure_drops = e.backpressure_drops + 1 })
      else dequeue now arrival_time (e.inbound_queue ++ ev ∷ []) e
