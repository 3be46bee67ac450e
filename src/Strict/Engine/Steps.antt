-- ===== src/Strict/Engine/Steps.antt =====
-- strict/engine.py: `on_punctuation` and `process`; and the write that strict/worker.py's
-- `update_global_watermark` makes to each engine.
use csdlpt.Prelude.{
  ℕ, ◌+◌, ◌-◌, Bool, true, false, ◌||◌, ℤ, pos, ◌+ℤ◌, ◌-ℤ◌, int_eq, string_eq, ltb, leb, ◌==◌,
  if◌then◌else◌,
}
use csdlpt.Prelude.Mark
use csdlpt.Prelude.Mark.{Mark, at}
use csdlpt.Prelude.Dict
use csdlpt.Common.Types.{LogEvent, PunctuationToken}
use csdlpt.Common.Window.{window_start}
use csdlpt.Strict.Engine.State.{
  Engine, WindowState, empty_window, on_store, persist_open_window, persist_seen_id,
}
use csdlpt.Strict.Engine.Close.{advance_watermark}
use csdlpt.Strict.Engine.Checkpoint.{checkpoint}

-- A token that commits no further than the last one is counted, and changes nothing else.
unfoldable pub on_punctuation : ℕ → PunctuationToken → Engine → Engine
on_punctuation now token e =
    let e' = record e { punctuation_total = e.punctuation_total + 1 } in
    if Mark.lt e.last_T_commit (at token.T_commit)
    then advance_watermark now (record e' {
      last_T_commit = at token.T_commit;
      local_watermark = at (token.T_commit -ℤ e.delta_base);
    })
    else record e' {
      metrics = record e.metrics {
        non_monotonic_punctuation = e.metrics.non_monotonic_punctuation + 1;
      };
    }

-- `eng.watermark = max(eng.watermark, W_global)`, and the same for the term
unfoldable pub raise_watermark : Mark → ℕ → Engine → Engine
raise_watermark W_global term e = record e {
  watermark = Mark.max e.watermark W_global;
  raft_term = if ltb e.raft_term term then term else e.raft_term;
}

abbrev pub bump : ℕ → WindowState → WindowState
bump status st = record {
  count = st.count + 1;
  status_500 = if status == 500 then st.status_500 + 1 else st.status_500;
}

-- The first lines: the event is counted as received, and the highest offset is kept.
unfoldable pub receive : LogEvent → Engine → Engine
receive ev e = record e {
  metrics = record e.metrics { total_received = e.metrics.total_received + 1 };
  kafka_committed_offset =
      if ltb e.kafka_committed_offset ev.offset then ev.offset else e.kafka_committed_offset;
}

abbrev pub window_of : LogEvent → Engine → ℤ
window_of ev e = window_start e.size ev.event_time

-- The outer filter: the window's end is at or behind the watermark, or it has been closed.
unfoldable pub is_late : LogEvent → Engine → Bool
is_late ev e =
    Mark.le (at (window_of ev e +ℤ pos e.size)) e.watermark
    || Dict.has e.closed_windows (window_of ev e)

-- The event enters its window; `open_windows` makes the window if it is new.
unfoldable pub enter_window : LogEvent → Engine → Engine
enter_window ev e =
    let ws = window_of ev e in
    let seen = Dict.put e.seen_ids ev.event_id ev.event_time in
    let windows =
      Dict.put e.open_windows ws
        (bump ev.status (Dict.get_or (Dict.get e.open_windows ws) empty_window)) in
    record e {
      seen_ids = seen;
      max_event_time = Mark.max e.max_event_time (at ev.event_time);
      open_windows = windows;
      metrics = record e.metrics { on_time = e.metrics.on_time + 1 };
      store =
          on_store (λ t. persist_open_window ws windows (persist_seen_id ev.event_id seen t))
            e.store;
    }

-- 10 s between checkpoints
unfoldable pub checkpoint_if_due : ℕ → Engine → Engine
checkpoint_if_due now e =
    if leb 10000 (now - e.last_checkpoint_time)
    then record (checkpoint now e) { last_checkpoint_time = now }
    else e

unfoldable pub accept : ℕ → LogEvent → Engine → Engine
unfolding enter_window checkpoint_if_due
accept now ev e = checkpoint_if_due now (advance_watermark now (enter_window ev e))

abbrev pub drop_backpressure : Engine → Engine
drop_backpressure e = record e {
  metrics = record e.metrics { backpressure_drops = e.metrics.backpressure_drops + 1 };
}

abbrev pub drop_late : Engine → Engine
drop_late e = record e { metrics = record e.metrics { late_dropped = e.metrics.late_dropped + 1 } }

abbrev pub drop_duplicate : Engine → Engine
drop_duplicate e = record e { metrics = record e.metrics { duplicates = e.metrics.duplicates + 1 } }

-- The event counts: a latency is returned, where a dropped event returns None.
unfoldable pub process : ℕ → LogEvent → ℕ → Engine → Bool × Engine
unfolding receive is_late accept
process now ev queue_len e₀ =
    let e = receive ev e₀ in
    if ltb e.max_queue queue_len
    then (false, drop_backpressure e)
    else if is_late ev e
    then (false, drop_late e)
    else if Dict.has e.seen_ids ev.event_id
    then (false, drop_duplicate e)
    else (true, accept now ev e)
