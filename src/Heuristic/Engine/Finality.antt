-- ===== src/Heuristic/Engine/Finality.antt =====
-- heuristic/engine.py: the result of a closed window does not change.
use csdlpt.Prelude.{
  Bool, true, false, ℕ, ◌+◌, ◌≡◌, refl, ◌∙◌, arith, inl, inr, some, List, [], ◌∷◌, ◌++◌, ℤ, int_eq,
  string_eq, eqb_ℤ_iff, leb, length, Bool-cases, Option-cases,
}
use csdlpt.Prelude.Sort.{sort}
use csdlpt.Prelude.Mark
use csdlpt.Prelude.Mark.{Mark}
use csdlpt.Prelude.Dict
use csdlpt.Prelude.Dict.{Dict, get-put}
use csdlpt.Common.Types.{LogEvent, WindowResult}
use csdlpt.Common.Books.{Books-take, Books-sort}
use csdlpt.Heuristic.ColdStart.{is_phase_0}
use csdlpt.Heuristic.Engine.Estimate.{Maps, Estimate}
use csdlpt.Heuristic.Engine.State.{HeuristicEngine, WindowAggregate, on_store, persist_seen_id}
use csdlpt.Heuristic.Engine.Close.{
  result_of, close_window, close_with, close_each, close_windows, to_close,
  purge_old_closed_windows, update_global_watermark, drain_results, flush_with, flush_each, flush,
}
use csdlpt.Heuristic.Engine.Process.{
  purge_seen_ids, drop_late, drop_anomaly, count_event, route, is_future, estimate, settle_modes,
  finish, after_modes, after_estimate, admit, accept, dequeue, process,
}
use csdlpt.Heuristic.Engine.Storage.{checkpoint}
use csdlpt.Heuristic.Engine.Accounting.{Books, IsSound, close_window-Books}
use csdlpt.Heuristic.Engine.Routing.{purge_seen-SameBooks, purge_old-SameBooks}
use csdlpt.Heuristic.Engine.Run.{
  Call, event, global, drain, check, flush_all, call, call-IsSound, run,
}

-- The window `w` is closed with the result `r`.
abbrev pub IsClosed : ℤ → WindowResult → HeuristicEngine → Type 0
IsClosed w r e = Dict.get e.closed_windows w ≡ some r

close_window-IsClosed :
    (now : ℕ) (v w : ℤ) (r : WindowResult) (n : ℕ) (e : HeuristicEngine)
    → Books e.open_windows e.closed_windows n
    → IsClosed w r e
    → IsClosed w r (close_window now v e)
unfolding close_window
close_window-IsClosed now v w r n e b h = elim (Option-cases (Dict.get e.open_windows v)) [
  | inl gone ↦ rw (gone, close_window) h
  | inr (agg, here) ↦
      rw (here, close_window)
        (unfold close_with in
          ground
            (arith, b.apart w, eqb_ℤ_iff v w, get-put e.closed_windows v w (result_of e v agg)))
]

close_each-IsClosed :
    (now : ℕ) (l : List ℤ) (w : ℤ) (r : WindowResult) (n : ℕ) (e : HeuristicEngine)
    → Books e.open_windows e.closed_windows n
    → IsClosed w r e
    → IsClosed w r (close_each now l e)
unfolding close_each
close_each-IsClosed now [] w r n e b h = h
close_each-IsClosed now (v ∷ l) w r n e b h =
    close_each-IsClosed now l w r n (close_window now v e) (close_window-Books now v n e b)
      (close_window-IsClosed now v w r n e b h)

close_windows-IsClosed :
    (now : ℕ) (w : ℤ) (r : WindowResult) (n : ℕ) (e : HeuristicEngine)
    → Books e.open_windows e.closed_windows n
    → IsClosed w r e
    → IsClosed w r (close_windows now e)
unfolding close_windows
close_windows-IsClosed now w r n e b h = elim (Bool-cases (is_phase_0 e.est.cold_start)) [
  | inl cold ↦ rw cold h
  | inr warm ↦ rw warm (close_each-IsClosed now (sort (λ v. v) (to_close e)) w r n e b h)
]

route-closed :
    (ev : LogEvent) (t : ℕ) (e : HeuristicEngine) → (route ev t e).closed_windows ≡ e.closed_windows
unfolding route drop_anomaly drop_late count_event
route-closed ev t e = ground arith

module _ (maps : Maps) where
  after_modes-closed :
      (now : ℕ) (ev : LogEvent) (t : ℕ) (e : HeuristicEngine) (a : Bool × Estimate)
      → (after_modes maps now ev t e a).1.closed_windows ≡ e.closed_windows
  unfolding after_modes finish
  after_modes-closed now ev t e (true, est) = refl
  after_modes-closed now ev t e (false, est) = route-closed ev t (record e { est = est })

  after_estimate-IsClosed :
      (now : ℕ) (ev : LogEvent) (t : ℕ) (w : ℤ) (r : WindowResult) (n : ℕ) (e : HeuristicEngine)
      (a : Bool × Estimate)
      → Books e.open_windows e.closed_windows n
      → IsClosed w r e
      → IsClosed w r (after_estimate maps now ev t e a).1
  unfolding after_estimate
  after_estimate-IsClosed now ev t w r n e (true, est) b h = h
  after_estimate-IsClosed now ev t w r n e (false, est) b h =
      let e₁ = record e { est = est; last_event_time = t } in
      let closed = close_windows now e₁ in
      let a = settle_modes maps now closed.settings closed.est in
      rw (after_modes-closed now ev t closed a) (close_windows-IsClosed now w r n e₁ b h)

  admit-IsClosed :
      (now : ℕ) (ev : LogEvent) (t : ℕ) (w : ℤ) (r : WindowResult) (n : ℕ) (e : HeuristicEngine)
      → Books e.open_windows e.closed_windows n
      → IsClosed w r e
      → IsClosed w r (admit maps now ev t e).1
  unfolding admit
  admit-IsClosed now ev t w r n e b h =
      after_estimate-IsClosed now ev t w r n e (estimate maps now ev t e) b h

  accept-IsClosed :
      (now : ℕ) (ev : LogEvent) (t : ℕ) (w : ℤ) (r : WindowResult) (n : ℕ) (e : HeuristicEngine)
      → Books e.open_windows e.closed_windows n
      → IsClosed w r e
      → IsClosed w r (accept maps now ev t e).1
  unfolding accept drop_anomaly drop_late
  accept-IsClosed now ev t w r n e₀ b₀ h₀ =
      let e₁ = record e₀ {
        seen_ids = Dict.put e₀.seen_ids ev.event_id t;
        store = on_store (persist_seen_id ev.event_id t) e₀.store;
      } in
      let e₂ = purge_seen_ids now e₁ in
      let e = purge_old_closed_windows now e₂ in
      let p = purge_seen-SameBooks now e₁ in
      let q = purge_old-SameBooks now e₂ in
      let h : IsClosed w r e = rw (q.2 ∙ p.2) h₀ in
      let b : Books e.open_windows e.closed_windows n = rw (q.1 ∙ p.1, q.2 ∙ p.2) b₀ in
      elim (Bool-cases (is_future ev t e)) [
        | inl future ↦ rw future h
        | inr present ↦ rw present (admit-IsClosed now ev t w r n e b h)
      ]

  dequeue-IsClosed :
      (now t : ℕ) (l : List LogEvent) (w : ℤ) (r : WindowResult) (n : ℕ) (e : HeuristicEngine)
      → Books e.open_windows e.closed_windows n
      → IsClosed w r e
      → IsClosed w r (dequeue maps now t l e).1
  unfolding dequeue
  dequeue-IsClosed now t [] w r n e b h = h
  dequeue-IsClosed now t (ev ∷ rest) w r n e₀ b h =
      let e = record e₀ { inbound_queue = rest; total_received = e₀.total_received + 1 } in
      elim (Bool-cases (Dict.has e.seen_ids ev.event_id)) [
        | inl again ↦ rw again h
        | inr new ↦ rw new (accept-IsClosed now ev t w r n e b h)
      ]

  process-IsClosed :
      (now t : ℕ) (ev : LogEvent) (w : ℤ) (r : WindowResult) (n : ℕ) (e : HeuristicEngine)
      → Books e.open_windows e.closed_windows n
      → IsClosed w r e
      → IsClosed w r (process maps now t ev e).1
  unfolding process
  process-IsClosed now t ev w r n e b h =
      elim (Bool-cases (leb e.queue_maxsize (length e.inbound_queue))) [
        | inl full ↦ rw full h
        | inr room ↦ rw room (dequeue-IsClosed now t (e.inbound_queue ++ ev ∷ []) w r n e b h)
      ]

flush_each-IsClosed :
    (l : Dict ℤ WindowAggregate) (w : ℤ) (r : WindowResult) (n : ℕ) (e : HeuristicEngine)
    → Books l e.closed_windows n
    → IsClosed w r e
    → IsClosed w r (flush_each l e)
unfolding flush_each
flush_each-IsClosed [] w r n e b h = h
flush_each-IsClosed ((v, agg) ∷ l) w r n e b h =
    flush_each-IsClosed l w r n (flush_with v agg e)
      (unfold flush_with in Books-take v agg _ refl b)
      (unfold flush_with Dict.get in
        ground (arith, b.apart w, eqb_ℤ_iff v w, get-put e.closed_windows v w (result_of e v agg)))

module _ (maps : Maps) where
  call-IsClosed :
      {k b : ℕ} (now : ℕ) (c : Call) (w : ℤ) (r : WindowResult) (e : HeuristicEngine)
      → IsSound k b e
      → IsClosed w r e
      → IsClosed w r (call maps now c e)
  unfolding call update_global_watermark drain_results checkpoint flush
  call-IsClosed now (event t ev) w r e s h =
      process-IsClosed maps now t ev w r e.on_time e s.books h
  call-IsClosed now (global W) w r e s h =
      close_windows-IsClosed now w r e.on_time
        (record e { est = record e.est { W_global_h = Mark.max e.est.W_global_h W } }) s.books h
  call-IsClosed now drain w r e s h = h
  call-IsClosed now check w r e s h = h
  call-IsClosed now flush_all w r e s h =
      flush_each-IsClosed (sort (λ p. p.0) e.open_windows) w r e.on_time e (Books-sort s.books) h

-- A speculative result is not changed in place: in an engine whose books balance, whatever events,
-- global watermarks, drains, checkpoints and flushes follow, a closed window keeps its result.
pub run-IsKept :
    {k b : ℕ} (maps : Maps) (l : List (ℕ × Call)) (w : ℤ) (r : WindowResult) (e : HeuristicEngine)
    → IsSound k b e
    → IsClosed w r e
    → IsClosed w r (run maps l e)
unfolding run
run-IsKept maps [] w r e s h = h
run-IsKept maps ((now, c) ∷ l) w r e s h =
    run-IsKept maps l w r (call maps now c e) (call-IsSound maps now c e s)
      (call-IsClosed maps now c w r e s h)
