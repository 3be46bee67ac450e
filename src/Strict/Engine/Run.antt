-- ===== src/Strict/Engine/Run.antt =====
-- strict/engine.py: an engine's life, as the sequence of the calls that it gets.
use csdlpt.Prelude.{ℕ, ◌+◌, ◌≡◌, arith, List, [], ◌∷◌}
use csdlpt.Prelude.Mark.{Mark}
use csdlpt.Common.Types.{LogEvent, PunctuationToken}
use csdlpt.Strict.Engine.State.{Engine}
use csdlpt.Strict.Engine.Close.{flush}
use csdlpt.Strict.Engine.Checkpoint.{checkpoint}
use csdlpt.Strict.Engine.Steps.{on_punctuation, raise_watermark, process}
use csdlpt.Strict.Engine.Accounting.{
  IsSound, process-IsSound, on_punctuation-IsSound, checkpoint-IsSound, flush-IsSound,
}
use csdlpt.Common.Books.{open_count, closed_count}

pub data Call : Type 0 where
  processes : LogEvent → ℕ → Call
  punctuates : PunctuationToken → Call
  raises : Mark → ℕ → Call
  checkpoints flushes : Call

-- A call at a time of the wall clock.
unfoldable pub apply_call : ℕ → Call → Engine → Engine
apply_call now (processes ev queue_len) e = (process now ev queue_len e).1
apply_call now (punctuates token) e = on_punctuation now token e
apply_call now (raises W term) e = raise_watermark W term e
apply_call now checkpoints e = checkpoint now e
apply_call now flushes e = flush now e

unfoldable pub run : List (ℕ × Call) → Engine → Engine
run [] e = e
run ((now, c) ∷ l) e = run l (apply_call now c e)

pub apply_call-IsSound :
    (now : ℕ) (c : Call) (e : Engine) → IsSound e → IsSound (apply_call now c e)
unfolding apply_call
apply_call-IsSound now (processes ev q) e s = process-IsSound now ev q e s
apply_call-IsSound now (punctuates token) e s = on_punctuation-IsSound now token e s
apply_call-IsSound now (raises W term) e s =
    unfold raise_watermark in record { balance = s.balance; books = s.books }
apply_call-IsSound now checkpoints e s = checkpoint-IsSound now e s
apply_call-IsSound now flushes e s = flush-IsSound now e s

pub run-IsSound : (l : List (ℕ × Call)) (e : Engine) → IsSound e → IsSound (run l e)
unfolding run
run-IsSound [] e s = s
run-IsSound ((now, c) ∷ l) e s = run-IsSound l (apply_call now c e) (apply_call-IsSound now c e s)

-- No event that `process` counts as received is lost: in an engine whose books balance, with a store
-- or without, they balance after any calls, and each event received was counted as a duplicate, as
-- late or as dropped by backpressure, or it stands in the count of exactly one open window or of one
-- closed window's result.
pub run_accounts :
    (e : Engine) (l : List (ℕ × Call))
    → IsSound e
    → IsSound (run l e)
      × ((run l e).metrics.total_received
          ≡ (run l e).metrics.duplicates
            + (run l e).metrics.late_dropped
            + (run l e).metrics.backpressure_drops
            + (open_count (λ st. st.count) (run l e).open_windows
                + closed_count (run l e).closed_windows))
run_accounts e l h = let s = run-IsSound l e h in (s, omega (arith, s.balance, s.books.counted))
