-- ===== src/Heuristic/Engine/Close.antt =====
-- heuristic/engine.py: windows close, expire and are flushed.
use csdlpt.Prelude.{
  ℕ, ◌+◌, Bool, true, not, none, some, List, [], ◌∷◌, ◌++◌, ℤ, pos, ◌+ℤ◌, ◌-ℤ◌, ltb_ℤ, int_eq,
  string_eq, ltb, if◌then◌else◌, keep,
}
use csdlpt.Prelude.Mark
use csdlpt.Prelude.Mark.{Mark, neg_inf, at}
use csdlpt.Prelude.Dict
use csdlpt.Prelude.Dict.{Dict}
use csdlpt.Prelude.Sort.{sort}
use csdlpt.Common.Types.{WindowId, WindowResult}
use csdlpt.Common.Window.{window_id}
use csdlpt.Heuristic.ColdStart.{is_phase_0}
use csdlpt.Heuristic.Engine.State.{
  HeuristicEngine, WindowAggregate, on_store, delete_open_window, persist_closed_window,
}

abbrev pub result_of : HeuristicEngine → ℤ → WindowAggregate → WindowResult
result_of e w agg = record {
  window_id = window_id e.settings.size e.partition_id w;
  partition_id = e.partition_id;
  window_start = w;
  window_end = w +ℤ pos e.settings.size;
  count = agg.count;
  status_500 = agg.status_500;
  is_speculative = true;
  version = 1;
}

-- A window that was popped.
unfoldable pub close_with : ℕ → ℤ → WindowAggregate → HeuristicEngine → HeuristicEngine
close_with now w agg e =
    let r = result_of e w agg in
    record e {
      open_windows = Dict.remove e.open_windows w;
      closed_windows = Dict.put e.closed_windows w r;
      window_closed_at = Dict.put e.window_closed_at w (pos now);
      pending_results = e.pending_results ++ r ∷ [];
      store = on_store (λ t. persist_closed_window w r (delete_open_window w t)) e.store;
    }

unfoldable pub close_window : ℕ → ℤ → HeuristicEngine → HeuristicEngine
unfolding close_with
close_window now w e = elim (Dict.get e.open_windows w) [
  | none ↦ e
  | some agg ↦ close_with now w agg e
]

unfoldable pub close_each : ℕ → List ℤ → HeuristicEngine → HeuristicEngine
unfolding close_window
close_each now [] e = e
close_each now (w ∷ l) e = close_each now l (close_window now w e)

-- `w_limit`
unfoldable pub close_limit : HeuristicEngine → Mark
close_limit e =
    if e.settings.local_watermark_close
    then e.est.W_h
    else elim e.est.W_global_h [ neg_inf ↦ e.est.W_h | at t ↦ at t ]

abbrev pub is_due : ℕ → Mark → ℤ → Bool
is_due size w_limit w = Mark.le (at (w +ℤ pos size)) w_limit

unfoldable pub to_close : HeuristicEngine → List ℤ
unfolding close_limit
to_close e = keep (is_due e.settings.size (close_limit e)) (Dict.keys e.open_windows)

unfoldable pub close_windows : ℕ → HeuristicEngine → HeuristicEngine
unfolding close_each to_close
close_windows now e =
    if is_phase_0 e.est.cold_start then e else close_each now (sort (λ w. w) (to_close e)) e

unfoldable pub update_global_watermark : ℕ → Mark → HeuristicEngine → HeuristicEngine
unfolding close_windows
update_global_watermark now W_global_h e =
    close_windows now
      (record e { est = record e.est { W_global_h = Mark.max e.est.W_global_h W_global_h } })

-- `get_expired_windows`
unfoldable pub expired_of : ℤ → Dict ℤ ℤ → List (ℤ × WindowResult) → List (WindowId × ℕ × ℤ)
expired_of cutoff closed_at [] = []
expired_of cutoff closed_at ((w, r) ∷ l) =
    let rest = expired_of cutoff closed_at l in
    if ltb_ℤ r.window_end cutoff
    then (r.window_id, r.count, Dict.get_or (Dict.get closed_at w) (pos 0)) ∷ rest
    else rest

unfoldable pub get_expired_windows : ℕ → ℕ → HeuristicEngine → List (WindowId × ℕ × ℤ)
unfolding expired_of
get_expired_windows now age e = expired_of (pos now -ℤ pos age) e.window_closed_at e.closed_windows

unfoldable pub drain_results : HeuristicEngine → List WindowResult × HeuristicEngine
drain_results e = (e.pending_results, record e { pending_results = [] })

-- `_purge_old_closed_windows`, of the store only
abbrev pub is_young : ℕ → ℤ × WindowResult → Bool
is_young now p = not (ltb_ℤ p.1.window_end (pos now -ℤ pos 3600000))

unfoldable pub purge_old_closed_windows : ℕ → HeuristicEngine → HeuristicEngine
purge_old_closed_windows now e = elim e.store [
  | none ↦ e
  | some t ↦ if ltb now (e.last_closed_purge + 300000) then e else record e {
    last_closed_purge = now;
    store = some (record t { cw = keep (is_young now) t.cw });
  }
]

-- The body of the loop of `flush`, which pops nothing.
unfoldable pub flush_with : ℤ → WindowAggregate → HeuristicEngine → HeuristicEngine
flush_with w agg e =
    let r = result_of e w agg in
    record e {
      closed_windows = Dict.put e.closed_windows w r;
      window_closed_at = Dict.put e.window_closed_at w r.window_end;
      pending_results = e.pending_results ++ r ∷ [];
      store = on_store (persist_closed_window w r) e.store;
    }

unfoldable pub flush_each : List (ℤ × WindowAggregate) → HeuristicEngine → HeuristicEngine
unfolding flush_with
flush_each [] e = e
flush_each ((w, agg) ∷ l) e = flush_each l (flush_with w agg e)

unfoldable pub flush : HeuristicEngine → HeuristicEngine
unfolding flush_each
flush e =
    let e' = flush_each (sort (λ p. p.0) e.open_windows) e in
    record e' { open_windows = []; store = on_store (λ t. record t { ow = [] }) e'.store }
