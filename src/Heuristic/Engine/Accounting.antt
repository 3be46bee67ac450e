-- ===== src/Heuristic/Engine/Accounting.antt =====
-- heuristic/engine.py: where the events go. Each that was received is a duplicate, is counted in a window,
-- is in the list for the dead letter queue, or made `process` raise.
use csdlpt.Prelude.{
  ℕ, ◌+◌, ◌≡◌, refl, arith, inl, inr, List, [], ◌∷◌, ℤ, int_eq, string_eq, length, Bool-cases,
  Option-cases,
}
use csdlpt.Prelude.Mark
use csdlpt.Prelude.Mark.{Mark}
use csdlpt.Prelude.Dict
use csdlpt.Prelude.Dict.{Dict}
use csdlpt.Prelude.Sort.{sort}
use csdlpt.Common.Types.{WindowResult}
use csdlpt.Common.Books.{BooksOf, Books-close, Books-sort, Books-take}
use csdlpt.Heuristic.ColdStart.{is_phase_0}
use csdlpt.Heuristic.Engine.State.{HeuristicEngine, WindowAggregate}
use csdlpt.Heuristic.Engine.Close.{
  close_with, close_window, close_each, to_close, close_windows, update_global_watermark,
  flush_with, flush_each, flush,
}

abbrev pub Books : Dict ℤ WindowAggregate → Dict ℤ WindowResult → ℕ → Type 0
Books = BooksOf WindowAggregate (λ agg. agg.count)

-- `k` events were received and have gone nowhere yet; `b` stood in the list for the dead letter queue
-- at the start.
pub record IsSound (k b : ℕ) (e : HeuristicEngine) : Type 0 where
  pub balance : e.total_received ≡ e.duplicates + e.on_time + e.late_dropped + e.failed + k
  pub queued : length e.late_events ≡ e.late_dropped + b
  pub books : Books e.open_windows e.closed_windows e.on_time

-- What an operation on the windows leaves alone.
abbrev pub SameCounts : HeuristicEngine → HeuristicEngine → Type 0
SameCounts e f =
    (f.total_received ≡ e.total_received)
    × (f.on_time ≡ e.on_time)
    × (f.late_dropped ≡ e.late_dropped)
    × (f.duplicates ≡ e.duplicates)
    × (f.late_events ≡ e.late_events)
    × (f.failed ≡ e.failed)

pub IsSound-counts :
    {k b : ℕ} (e f : HeuristicEngine)
    → SameCounts e f
    → IsSound k b e
    → Books f.open_windows f.closed_windows e.on_time
    → IsSound k b f
IsSound-counts e f c s books = record {
  balance = omega (arith, s.balance, c.0, c.1, c.2, c.3, c.5);
  queued = rw (c.4, c.2) s.queued;
  books = rw (c.1) books;
}

pub close_window-Books :
    (now : ℕ) (w : ℤ) (n : ℕ) (e : HeuristicEngine)
    → Books e.open_windows e.closed_windows n
    → Books (close_window now w e).open_windows (close_window now w e).closed_windows n
unfolding close_window close_with
close_window-Books now w n e b = elim (Option-cases (Dict.get e.open_windows w)) [
  | inl gone ↦ rw (gone, close_window) b
  | inr (agg, here) ↦ rw (here, close_window) (Books-close w agg _ here refl b)
]

close_window-counts : (now : ℕ) (w : ℤ) (e : HeuristicEngine) → SameCounts e (close_window now w e)
unfolding close_window close_with
close_window-counts now w e = ground arith

pub close_each-IsSound :
    {k b : ℕ} (now : ℕ) (l : List ℤ) (e : HeuristicEngine)
    → IsSound k b e
    → IsSound k b (close_each now l e)
unfolding close_each
close_each-IsSound now [] e s = s
close_each-IsSound now (w ∷ l) e s = close_each-IsSound now l (close_window now w e) (
    IsSound-counts e (close_window now w e) (close_window-counts now w e) s
      (close_window-Books now w e.on_time e s.books))

pub close_windows-IsSound :
    {k b : ℕ} (now : ℕ) (e : HeuristicEngine) → IsSound k b e → IsSound k b (close_windows now e)
unfolding close_windows
close_windows-IsSound now e s = elim (Bool-cases (is_phase_0 e.est.cold_start)) [
  | inl cold ↦ rw cold s
  | inr warm ↦ rw warm (close_each-IsSound now (sort (λ w. w) (to_close e)) e s)
]

pub update_global-IsSound :
    {k b : ℕ} (now : ℕ) (W : Mark) (e : HeuristicEngine)
    → IsSound k b e
    → IsSound k b (update_global_watermark now W e)
unfolding update_global_watermark
update_global-IsSound now W e s =
    let raised = record e { est = record e.est { W_global_h = Mark.max e.est.W_global_h W } } in
    close_windows-IsSound now raised
      (record { balance = s.balance; queued = s.queued; books = s.books })

pub flush_each-Books :
    (l : Dict ℤ WindowAggregate) (n : ℕ) (e : HeuristicEngine)
    → Books l e.closed_windows n
    → Books [] (flush_each l e).closed_windows n
unfolding flush_each
flush_each-Books [] n e b = b
flush_each-Books ((w, agg) ∷ l) n e b =
    flush_each-Books l n (flush_with w agg e) (unfold flush_with in Books-take w agg _ refl b)

flush_each-counts :
    (l : Dict ℤ WindowAggregate) (e : HeuristicEngine) → SameCounts e (flush_each l e)
unfolding flush_each flush_with
flush_each-counts [] e = (refl, refl, refl, refl, refl, refl)
flush_each-counts ((w, agg) ∷ l) e = flush_each-counts l (flush_with w agg e)

pub flush-IsSound : {k b : ℕ} (e : HeuristicEngine) → IsSound k b e → IsSound k b (flush e)
unfolding flush
flush-IsSound e s =
    IsSound-counts e (flush e) (flush_each-counts (sort (λ p. p.0) e.open_windows) e) s
      (flush_each-Books (sort (λ p. p.0) e.open_windows) e.on_time e (Books-sort s.books))
