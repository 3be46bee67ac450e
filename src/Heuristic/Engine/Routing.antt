-- ===== src/Heuristic/Engine/Routing.antt =====
-- heuristic/engine.py: where `process` leaves an event that it received.
use csdlpt.Prelude.{
  ℕ, ◌+◌, ◌≡◌, arith, Bool, true, false, inl, inr, none, List, [], ◌∷◌, ◌++◌, ℤ, pos, int_eq,
  string_eq, leb, length, length-append, Bool-cases,
}
use csdlpt.Prelude.Dict
use csdlpt.Prelude.Dict.{Dict}
use csdlpt.Common.Types.{LogEvent, WindowId}
use csdlpt.Common.Window.{window_start}
use csdlpt.Common.Books.{Books-put}
use csdlpt.Heuristic.Engine.Estimate.{Maps, Estimate}
use csdlpt.Heuristic.Engine.State.{
  HeuristicEngine, LateEvent, future_skew, Loss, on_store, persist_seen_id,
}
use csdlpt.Heuristic.Engine.Close.{close_windows, purge_old_closed_windows}
use csdlpt.Heuristic.Engine.Process.{
  purge_seen_ids, drop_late, drop_anomaly, late_event, count_event, with_event, is_extreme, route,
  is_future, estimate, settle_modes, fail, finish, after_modes, after_estimate, admit, accept,
  dequeue, process,
}
use csdlpt.Heuristic.Engine.Accounting.{IsSound, SameCounts, IsSound-counts, close_windows-IsSound}

purge_seen-counts : (now : ℕ) (e : HeuristicEngine) → SameCounts e (purge_seen_ids now e)
unfolding purge_seen_ids
purge_seen-counts now e = ground arith

-- What leaves the windows alone too.
abbrev pub SameBooks : HeuristicEngine → HeuristicEngine → Type 0
SameBooks e f =
    SameCounts e f × (f.open_windows ≡ e.open_windows) × (f.closed_windows ≡ e.closed_windows)

IsSound-books : {k b : ℕ} (e f : HeuristicEngine) → SameBooks e f → IsSound k b e → IsSound k b f
IsSound-books e f h s = IsSound-counts e f h.0 s (rw (h.1, h.2) s.books)

pub purge_seen-SameBooks : (now : ℕ) (e : HeuristicEngine) → SameBooks e (purge_seen_ids now e)
unfolding purge_seen_ids
purge_seen-SameBooks now e = (purge_seen-counts now e, ground arith, ground arith)

pub purge_old-SameBooks :
    (now : ℕ) (e : HeuristicEngine) → SameBooks e (purge_old_closed_windows now e)
unfolding purge_old_closed_windows
purge_old-SameBooks now e = ground arith

drop_late-IsSound :
    {k b : ℕ} (l : LateEvent) (e : HeuristicEngine)
    → IsSound (k + 1) b e
    → IsSound k b (drop_late l e)
unfolding drop_late
drop_late-IsSound l e s = record {
  balance = omega (arith, s.balance);
  queued = omega (arith, s.queued, length-append e.late_events (l ∷ []));
  books = s.books;
}

drop_anomaly-IsSound :
    {k b : ℕ} (l : LateEvent) (e : HeuristicEngine)
    → IsSound (k + 1) b e
    → IsSound k b (drop_anomaly l e)
unfolding drop_anomaly
drop_anomaly-IsSound l e s =
    drop_late-IsSound l (record e { extreme_lag_count = e.extreme_lag_count + 1 })
      (record { balance = s.balance; queued = s.queued; books = s.books })

count-IsSound :
    {k b : ℕ} (ws : ℤ) (status : ℕ) (e : HeuristicEngine)
    → Dict.get e.closed_windows ws ≡ none
    → IsSound (k + 1) b e
    → IsSound k b (count_event ws status e)
unfolding count_event
count-IsSound ws status e fresh s = record {
  balance = omega (arith, s.balance);
  queued = s.queued;
  books =
      Books-put ws (with_event status (Dict.get e.open_windows ws)) fresh (ground arith) s.books;
}

loss-IsSound :
    {k b : ℕ} (w : WindowId) (d : Dict WindowId Loss) (e : HeuristicEngine)
    → IsSound k b e
    → IsSound k b (record e { window_loss = d })
loss-IsSound w d e s = record { balance = s.balance; queued = s.queued; books = s.books }

-- The event that is under way goes to a window or to the dead letter queue.
pub route-IsSound :
    {k b : ℕ} (ev : LogEvent) (arrival_time : ℕ) (e : HeuristicEngine)
    → IsSound (k + 1) b e
    → IsSound k b (route ev arrival_time e)
unfolding route
route-IsSound ev arrival_time e s = elim (Bool-cases (is_extreme ev arrival_time e)) [
  | inl far ↦ rw far (
      drop_anomaly-IsSound _ _ (record { balance = s.balance; queued = s.queued; books = s.books }))
  | inr near ↦
      elim (Bool-cases (Dict.has e.closed_windows (window_start e.settings.size ev.event_time))) [
        | inl shut ↦
            rw (near, shut)
              (drop_late-IsSound _ _
                (record { balance = s.balance; queued = s.queued; books = s.books }))
        | inr free ↦
            rw (near, free)
              (count-IsSound (window_start e.settings.size ev.event_time) ev.status _ (ground arith)
                (record { balance = s.balance; queued = s.queued; books = s.books }))
      ]
]

module _ (maps : Maps) where
  est-IsSound :
      {k b : ℕ} (est : Estimate) (t : ℕ) (e : HeuristicEngine)
      → IsSound k b e
      → IsSound k b (record e { est = est; last_event_time = t })
  est-IsSound est t e s = record { balance = s.balance; queued = s.queued; books = s.books }

  fail-IsSound :
      {k b : ℕ} (est : Estimate) (t : ℕ) (e : HeuristicEngine)
      → IsSound (k + 1) b e
      → IsSound k b (fail (record e { est = est; last_event_time = t })).1
  fail-IsSound est t e s = record {
    balance = omega (arith, s.balance);
    queued = s.queued;
    books = s.books;
  }

  after_modes-IsSound :
      {k b : ℕ} (now : ℕ) (ev : LogEvent) (t : ℕ) (e : HeuristicEngine) (a : Bool × Estimate)
      → IsSound (k + 1) b e
      → IsSound k b (after_modes maps now ev t e a).1
  unfolding after_modes finish
  after_modes-IsSound now ev t e (true, est) s = record {
    balance = omega (arith, s.balance);
    queued = s.queued;
    books = s.books;
  }
  after_modes-IsSound now ev t e (false, est) s =
      let r =
        route-IsSound ev t (record e { est = est })
          (record { balance = s.balance; queued = s.queued; books = s.books }) in
      record { balance = r.balance; queued = r.queued; books = r.books }

  after_estimate-IsSound :
      {k b : ℕ} (now : ℕ) (ev : LogEvent) (t : ℕ) (e : HeuristicEngine) (a : Bool × Estimate)
      → IsSound (k + 1) b e
      → IsSound k b (after_estimate maps now ev t e a).1
  unfolding after_estimate
  after_estimate-IsSound now ev t e (true, est) s = fail-IsSound est t e s
  after_estimate-IsSound now ev t e (false, est) s =
      let closed = close_windows now (record e { est = est; last_event_time = t }) in
      after_modes-IsSound now ev t closed (settle_modes maps now closed.settings closed.est) (
        close_windows-IsSound now (record e { est = est; last_event_time = t })
          (est-IsSound est t e s))

  admit-IsSound :
      {k b : ℕ} (now : ℕ) (ev : LogEvent) (arrival_time : ℕ) (e : HeuristicEngine)
      → IsSound (k + 1) b e
      → IsSound k b (admit maps now ev arrival_time e).1
  unfolding admit
  admit-IsSound now ev t e s = after_estimate-IsSound now ev t e (estimate maps now ev t e) s

  accept-IsSound :
      {k b : ℕ} (now : ℕ) (ev : LogEvent) (arrival_time : ℕ) (e : HeuristicEngine)
      → IsSound (k + 1) b e
      → IsSound k b (accept maps now ev arrival_time e).1
  unfolding accept
  accept-IsSound now ev arrival_time e₀ s₀ =
      let e₁ = record e₀ {
        seen_ids = Dict.put e₀.seen_ids ev.event_id arrival_time;
        store = on_store (persist_seen_id ev.event_id arrival_time) e₀.store;
      } in
      let e₂ = purge_seen_ids now e₁ in
      let e = purge_old_closed_windows now e₂ in
      let s = IsSound-books e₂ e (purge_old-SameBooks now e₂) (
        IsSound-books e₁ e₂ (purge_seen-SameBooks now e₁)
          (record { balance = s₀.balance; queued = s₀.queued; books = s₀.books })) in
      elim (Bool-cases (is_future ev arrival_time e)) [
        | inl future ↦
            rw future (drop_anomaly-IsSound (late_event future_skew (pos 0) ev arrival_time e) e s)
        | inr present ↦ rw present (admit-IsSound now ev arrival_time e s)
      ]

  dequeue-IsSound :
      {k b : ℕ} (now arrival_time : ℕ) (l : List LogEvent) (e : HeuristicEngine)
      → IsSound k b e
      → IsSound k b (dequeue maps now arrival_time l e).1
  unfolding dequeue
  dequeue-IsSound now arrival_time [] e s = s
  dequeue-IsSound now arrival_time (ev ∷ rest) e₀ s =
      let e = record e₀ { inbound_queue = rest; total_received = e₀.total_received + 1 } in
      elim (Bool-cases (Dict.has e.seen_ids ev.event_id)) [
        | inl again ↦
            rw again
              (record { balance = omega (arith, s.balance); queued = s.queued; books = s.books })
        | inr new ↦ rw new (
            accept-IsSound now ev arrival_time e
              (record { balance = omega (arith, s.balance); queued = s.queued; books = s.books }))
      ]

  -- `process` keeps the books of the engine.
  pub process-IsSound :
      {k b : ℕ} (now arrival_time : ℕ) (ev : LogEvent) (e : HeuristicEngine)
      → IsSound k b e
      → IsSound k b (process maps now arrival_time ev e).1
  unfolding process
  process-IsSound now arrival_time ev e s =
      elim (Bool-cases (leb e.queue_maxsize (length e.inbound_queue))) [
        | inl full ↦ rw full (record { balance = s.balance; queued = s.queued; books = s.books })
        | inr room ↦ rw room (dequeue-IsSound now arrival_time (e.inbound_queue ++ ev ∷ []) e s)
      ]
