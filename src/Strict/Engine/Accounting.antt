-- ===== src/Strict/Engine/Accounting.antt =====
-- strict/engine.py: no event is lost. Every event that was received is counted in a window or in one
-- of the drop counters, and closing a window moves its count to the result.
use csdlpt.Prelude.{
  ℕ, ◌+◌, ◌≡◌, refl, ◌∙◌, arith, inl, inr, false, List, [], ◌∷◌, ℤ, int_eq, leb, ltb, ◌-◌, String,
  string_eq, Bool-cases, Option-cases, keep,
}
use csdlpt.Prelude.Mark
use csdlpt.Prelude.Mark.{Mark, at, neg_inf}
use csdlpt.Prelude.Dict
use csdlpt.Prelude.Dict.{Dict, IsDict}
use csdlpt.Prelude.Sort.{sort}
use csdlpt.Common.Types.{LogEvent, PunctuationToken, WindowResult}
use csdlpt.Strict.Engine.State.{Engine, WindowState}
use csdlpt.Strict.Engine.Close.{
  close_window, close_windows, to_close, advance_watermark, flush_with, flush_windows, flush,
}
use csdlpt.Strict.Engine.Checkpoint.{
  checkpoint, write_checkpoint, purge_seen_ids, purge_from, purge_cutoff, delete_seen, bulk_cleanup,
  is_expired,
}
use csdlpt.Strict.Engine.Steps.{
  on_punctuation, receive, is_late, window_of, enter_window, checkpoint_if_due, accept, process,
}
use csdlpt.Common.Books.{BooksOf, Books-close, Books-put, Books-sort, Books-take}

abbrev pub Books : Dict ℤ WindowState → Dict ℤ WindowResult → ℕ → Type 0
Books = BooksOf WindowState (λ st. st.count)

-- The books of an engine: what it received is what it counted and what it dropped, and what it counted
-- stands in its windows.
pub record IsSound (e : Engine) : Type 0 where
  pub balance :
      e.metrics.total_received
      ≡ e.metrics.on_time + e.metrics.late_dropped + e.metrics.duplicates
        + e.metrics.backpressure_drops
  pub books : Books e.open_windows e.closed_windows e.metrics.on_time

close_window-Books :
    (now : ℕ) (w : ℤ) (n : ℕ) (e : Engine)
    → Books e.open_windows e.closed_windows n
    → Books (close_window now w e).open_windows (close_window now w e).closed_windows n
unfolding close_window
close_window-Books now w n e b = elim (Option-cases (Dict.get e.open_windows w)) [
  | inl gone ↦ rw (gone, close_window) b
  | inr (st, here) ↦ rw (here, close_window) (Books-close w st _ here refl b)
]

close_windows-Books :
    (now : ℕ) (l : List ℤ) (n : ℕ) (e : Engine)
    → Books e.open_windows e.closed_windows n
    → Books (close_windows now l e).open_windows (close_windows now l e).closed_windows n
unfolding close_windows
close_windows-Books now [] n e b = b
close_windows-Books now (w ∷ l) n e b =
    close_windows-Books now l n (close_window now w e) (close_window-Books now w n e b)

pub close_window-metrics :
    (now : ℕ) (w : ℤ) (e : Engine) → (close_window now w e).metrics ≡ e.metrics
unfolding close_window
close_window-metrics now w e = ground arith

pub close_windows-metrics :
    (now : ℕ) (l : List ℤ) (e : Engine) → (close_windows now l e).metrics ≡ e.metrics
unfolding close_windows
close_windows-metrics now [] e = refl
close_windows-metrics now (w ∷ l) e =
    close_windows-metrics now l (close_window now w e) ∙ close_window-metrics now w e

pub advance_watermark-IsSound :
    (now : ℕ) (e : Engine) → IsSound e → IsSound (advance_watermark now e)
unfolding advance_watermark
advance_watermark-IsSound now e s =
    closed_all (record e { watermark = e.local_watermark })
      (record { balance = s.balance; books = s.books })
  where
    closed_all :
        (f : Engine) → IsSound f → IsSound (close_windows now (sort (λ w. w) (to_close f)) f)
    closed_all f t = record {
      balance = rw close_windows-metrics t.balance;
      books =
          rw close_windows-metrics
            (close_windows-Books now (sort (λ w. w) (to_close f)) _ f t.books);
    }

pub flush_windows-Books :
    (now : ℕ) (l : Dict ℤ WindowState) (n : ℕ) (e : Engine)
    → Books l e.closed_windows n
    → Books [] (flush_windows now l e).closed_windows n
unfolding flush_windows
flush_windows-Books now [] n e b = b
flush_windows-Books now ((w, st) ∷ l) n e b =
    flush_windows-Books now l n (flush_with now w st e)
      (unfold flush_with in Books-take w st _ refl b)

flush_windows-metrics :
    (now : ℕ) (l : Dict ℤ WindowState) (e : Engine) → (flush_windows now l e).metrics ≡ e.metrics
unfolding flush_windows
flush_windows-metrics now [] e = refl
flush_windows-metrics now ((w, st) ∷ l) e = flush_windows-metrics now l (flush_with now w st e)

pub flush-IsSound : (now : ℕ) (e : Engine) → IsSound e → IsSound (flush now e)
unfolding flush
flush-IsSound now e s = record {
  balance = rw flush_windows-metrics s.balance;
  books =
      rw flush_windows-metrics
        (flush_windows-Books now (sort (λ p. p.0) e.open_windows) _ e (Books-sort s.books));
}

-- A checkpoint leaves the windows and the counters alone.
abbrev pub SameBooks : Engine → Engine → Type 0
SameBooks e f =
    (f.open_windows ≡ e.open_windows)
    × (f.closed_windows ≡ e.closed_windows)
    × (f.metrics ≡ e.metrics)

SameBooks-IsSound : (e f : Engine) → SameBooks e f → IsSound e → IsSound f
SameBooks-IsSound e f h s = record {
  balance = rw h.2 s.balance;
  books = rw (h.0, h.1, h.2) s.books;
}

delete_seen-SameBooks : (l : List (String × ℤ)) (e : Engine) → SameBooks e (delete_seen l e)
unfolding delete_seen
delete_seen-SameBooks [] e = (refl, refl, refl)
delete_seen-SameBooks ((eid, t) ∷ l) e = delete_seen-SameBooks l _

bulk_cleanup-SameBooks : (now : ℕ) (e : Engine) → SameBooks e (bulk_cleanup now e)
unfolding bulk_cleanup
bulk_cleanup-SameBooks now e = ground arith

purge_from-SameBooks : (now : ℕ) (c : Mark) (e : Engine) → SameBooks e (purge_from now c e)
unfolding purge_from
purge_from-SameBooks now neg_inf e = (refl, refl, refl)
purge_from-SameBooks now (at c) e =
    let d = delete_seen-SameBooks (keep (is_expired (at c)) e.seen_ids) e in
    let b = bulk_cleanup-SameBooks now (delete_seen (keep (is_expired (at c)) e.seen_ids) e) in
    (b.0 ∙ d.0, b.1 ∙ d.1, b.2 ∙ d.2)

pub checkpoint-SameBooks : (now : ℕ) (e : Engine) → SameBooks e (checkpoint now e)
unfolding checkpoint purge_seen_ids write_checkpoint
checkpoint-SameBooks now e = purge_from-SameBooks now (purge_cutoff e) e

pub checkpoint-IsSound : (now : ℕ) (e : Engine) → IsSound e → IsSound (checkpoint now e)
checkpoint-IsSound now e = SameBooks-IsSound e (checkpoint now e) (checkpoint-SameBooks now e)

checkpoint_if_due-IsSound : (now : ℕ) (e : Engine) → IsSound e → IsSound (checkpoint_if_due now e)
unfolding checkpoint_if_due
checkpoint_if_due-IsSound now e s = elim (Bool-cases (leb 10000 (now - e.last_checkpoint_time))) [
  | inl due ↦ rw due (SameBooks-IsSound e _ (checkpoint-SameBooks now e) s)
  | inr early ↦ rw early s
]

pub on_punctuation-IsSound :
    (now : ℕ) (token : PunctuationToken) (e : Engine)
    → IsSound e
    → IsSound (on_punctuation now token e)
unfolding on_punctuation
on_punctuation-IsSound now token e s =
    elim (Bool-cases (Mark.lt e.last_T_commit (at token.T_commit))) [
      | inl later ↦
          rw later
            (advance_watermark-IsSound now _ (record { balance = s.balance; books = s.books }))
      | inr stale ↦ rw stale (record { balance = s.balance; books = s.books })
    ]

pub entered-IsSound :
    (ev : LogEvent) (e : Engine)
    → is_late ev (receive ev e) ≡ false
    → IsSound e
    → IsSound (enter_window ev (receive ev e))
unfolding receive is_late enter_window
entered-IsSound ev e open_still s = record {
  balance = omega (arith, s.balance);
  books = Books-put (window_of ev e) _ (ground arith) (ground arith) s.books;
}

-- Whatever `process` does with an event, the books of the engine still balance.
pub process-IsSound :
    (now : ℕ) (ev : LogEvent) (queue_len : ℕ) (e : Engine)
    → IsSound e
    → IsSound (process now ev queue_len e).1
unfolding process receive
process-IsSound now ev queue_len e s = elim (Bool-cases (ltb e.max_queue queue_len)) [
  | inl full ↦ rw full (record { balance = omega (arith, s.balance); books = s.books })
  | inr room ↦ elim (Bool-cases (is_late ev (receive ev e))) [
    | inl late ↦ rw (room, late) (record { balance = omega (arith, s.balance); books = s.books })
    | inr early ↦ elim (Bool-cases (Dict.has e.seen_ids ev.event_id)) [
      | inl again ↦
          rw (room, early, again) (record { balance = omega (arith, s.balance); books = s.books })
      | inr new ↦
          rw (room, early, new)
            (unfold accept in
              checkpoint_if_due-IsSound now _
                (advance_watermark-IsSound now _ (entered-IsSound ev e early s)))
    ]
  ]
]
