-- ===== src/Tests/Engines.antt =====
-- strict/engine.py: tests of an engine with windows of five seconds.
use csdlpt.Prelude.{
  ℕ, ◌+◌, ◌≡◌, refl, arith, true, false, none, some, List, [], ◌∷◌, pos, ◌+ℤ◌, ◌-ℤ◌, int_eq,
  string_eq, inl, floor_to, eqb_ℤ,
}
use csdlpt.Prelude.Mark.{at, neg_inf}
use csdlpt.Prelude.Dict
use csdlpt.Prelude.Dict.{IsDict}
use csdlpt.Common.Types.{LogEvent, PunctuationToken, WindowResult}
use csdlpt.Common.Window.{window_start}
use csdlpt.Strict.Engine.State.{Engine, no_metrics}
use csdlpt.Strict.Engine.Close.{advance_watermark}
use csdlpt.Strict.Engine.Steps.{process, receive, is_late}
use csdlpt.Strict.Engine.Accounting.{IsSound}
use csdlpt.Common.Books.{open_count, closed_count}
use csdlpt.Strict.Engine.Closing.{
  has_passed, final_result, advance_watermark-closes, advance_watermark_keeps,
}
use csdlpt.Strict.Engine.Run.{Call, processes, punctuates, checkpoints, flushes, run, run_accounts}
use csdlpt.Strict.Engine.Finality.{IsClosed, run-IsClosed}
use csdlpt.Strict.Engine.Dedup.{process_once, process_twice}

abbrev event : LogEvent
event = record { event_id = "a"; event_time = pos 12000; status = 500; offset = 3 }

abbrev late_event : LogEvent
late_event = record { event_id = "b"; event_time = pos 2000; status = 200; offset = 4 }

abbrev token : PunctuationToken
token = record { T_commit = pos 30000; partition_id = 0; ingestor_id = "i"; is_empty = false }

abbrev new_engine : Engine
new_engine = record {
  size = 5000;
  delta_base = pos 10000;
  max_queue = 500;
  partition_id = 0;
  raft_term = 0;
  last_T_commit = neg_inf;
  local_watermark = neg_inf;
  max_event_time = neg_inf;
  watermark = neg_inf;
  kafka_committed_offset = 0;
  punctuation_total = 0;
  open_windows = [];
  closed_windows = [];
  seen_ids = [];
  last_checkpoint_time = 0;
  last_bulk_cleanup = 0;
  metrics = no_metrics;
  output = none;
  has_storage = true;
  uploads = [];
  store = some (record { ow = []; cw = []; si = []; checkpoint = none });
  checkpoint_file = none;
  emitted_file = none;
}

abbrev calls : List (ℕ × Call)
calls =
    (1, processes event 0)
    ∷ (2, processes event 0)
    ∷ (3, punctuates token)
    ∷ (4, processes late_event 0)
    ∷ (5, checkpoints)
    ∷ (6, flushes)
    ∷ []

-- One event in the window that starts at 10000, with the watermark behind it and then past it.
abbrev opened : Engine
opened = record new_engine {
  local_watermark = at (pos 20000);
  open_windows =
      (pos 10000, record { count = 1; status_500 = 1 })
      ∷ (pos 20000, record { count = 2; status_500 = 0 })
      ∷ [];
}

advance_watermark-closes_example :
    (Dict.get (advance_watermark 7 opened).open_windows (pos 10000) ≡ none)
    × (Dict.get (advance_watermark 7 opened).closed_windows (pos 10000)
        ≡ some (final_result 5000 0 (pos 10000) 1 1))
unfolding has_passed Dict.get eqb_ℤ ◌+ℤ◌
advance_watermark-closes_example =
    advance_watermark-closes 7 opened (pos 10000) (record { count = 1; status_500 = 1 }) refl refl

advance_watermark_keeps_example :
    (Dict.get (advance_watermark 7 opened).open_windows (pos 20000)
      ≡ Dict.get opened.open_windows (pos 20000))
    × (Dict.get (advance_watermark 7 opened).closed_windows (pos 20000)
        ≡ Dict.get opened.closed_windows (pos 20000))
unfolding has_passed ◌+ℤ◌
advance_watermark_keeps_example = advance_watermark_keeps 7 opened (pos 20000) (inl refl)

abbrev result : WindowResult
result = record {
  window_id = record { partition = 0; start = pos 10000; stop = pos 15000 };
  partition_id = 0;
  window_start = pos 10000;
  window_end = pos 15000;
  count = 1;
  status_500 = 1;
  is_speculative = false;
  version = 1;
}

-- The window that starts at 10000 has been closed.
abbrev finished : Engine
finished = record new_engine {
  closed_windows = (pos 10000, result) ∷ [];
  metrics = record no_metrics { total_received = 1; on_time = 1 };
}

finished-IsSound : IsSound finished
unfolding Dict.total Dict.get
finished-IsSound = record {
  balance = refl;
  books = record {
    counted = refl;
    unique_open = tt;
    unique_closed = (refl, tt);
    apart = λ w. inl refl;
  };
}

run_accounts_example :
    IsSound (run calls finished)
    × ((run calls finished).metrics.total_received
        ≡ (run calls finished).metrics.duplicates
          + (run calls finished).metrics.late_dropped
          + (run calls finished).metrics.backpressure_drops
          + (open_count (λ st. st.count) (run calls finished).open_windows
              + closed_count (run calls finished).closed_windows))
run_accounts_example = run_accounts finished calls finished-IsSound

run-IsClosed_example : IsClosed (pos 10000) result (run calls finished)
unfolding Dict.get eqb_ℤ
run-IsClosed_example = run-IsClosed calls (pos 10000) result finished finished-IsSound refl

-- The watermark is set.
abbrev moving : Engine
moving = record new_engine { local_watermark = at (pos 11000) }

process_once_example : (process 9 event 0 (process 8 event 0 moving).1).0 ≡ false
unfolding process receive is_late Dict.get window_start floor_to ◌+ℤ◌
process_once_example =
    process_once 8 9 event 0 0 moving (pos 11000) (omega arith) (omega arith) refl tt refl

-- No watermark, and the newest event more than a minute ahead.
abbrev unmarked : Engine
unmarked = record new_engine { max_event_time = at (pos 90000) }

process_twice_example : (process 20001 event 0 (process 20000 event 0 unmarked).1).0 ≡ true
unfolding process receive is_late Dict.get window_start floor_to ◌+ℤ◌
process_twice_example =
    process_twice 20000 20001 event 0 0 unmarked (pos 90000) tt refl refl
      (unfold ◌-ℤ◌ in omega arith) (omega arith) (omega arith) refl
