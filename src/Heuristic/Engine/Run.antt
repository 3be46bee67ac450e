-- ===== src/Heuristic/Engine/Run.antt =====
-- heuristic/engine.py: a life of the engine, as a list of calls with the time of each.
use csdlpt.Prelude.{ℕ, List, [], ◌∷◌, int_eq}
use csdlpt.Prelude.Mark.{Mark}
use csdlpt.Prelude.Dict
use csdlpt.Prelude.Dict.{Dict}
use csdlpt.Common.Types.{LogEvent}
use csdlpt.Heuristic.Engine.Estimate.{Maps}
use csdlpt.Heuristic.Engine.State.{HeuristicEngine}
use csdlpt.Heuristic.Engine.Close.{update_global_watermark, drain_results, flush}
use csdlpt.Heuristic.Engine.Process.{process}
use csdlpt.Heuristic.Engine.Storage.{checkpoint}
use csdlpt.Heuristic.Engine.Accounting.{IsSound, update_global-IsSound, flush-IsSound}
use csdlpt.Heuristic.Engine.Routing.{process-IsSound}

-- An event comes with its arrival time.
pub data Call : Type 0 where
  event : ℕ → LogEvent → Call
  global : Mark → Call
  drain check flush_all : Call

module _ (maps : Maps) where
  unfoldable pub call : ℕ → Call → HeuristicEngine → HeuristicEngine
  call now (event arrival_time ev) e = (process maps now arrival_time ev e).1
  call now (global W) e = update_global_watermark now W e
  call now drain e = (drain_results e).1
  call now check e = checkpoint e
  call now flush_all e = flush e

  unfoldable pub run : List (ℕ × Call) → HeuristicEngine → HeuristicEngine
  unfolding call
  run [] e = e
  run ((now, c) ∷ l) e = run l (call now c e)

  pub call-IsSound :
      {k b : ℕ} (now : ℕ) (c : Call) (e : HeuristicEngine)
      → IsSound k b e
      → IsSound k b (call now c e)
  unfolding call drain_results checkpoint
  call-IsSound now (event arrival_time ev) e s = process-IsSound maps now arrival_time ev e s
  call-IsSound now (global W) e s = update_global-IsSound now W e s
  call-IsSound now drain e s = record { balance = s.balance; queued = s.queued; books = s.books }
  call-IsSound now check e s = record { balance = s.balance; queued = s.queued; books = s.books }
  call-IsSound now flush_all e s = flush-IsSound e s

  pub run-IsSound :
      {k b : ℕ} (l : List (ℕ × Call)) (e : HeuristicEngine) → IsSound k b e → IsSound k b (run l e)
  unfolding run
  run-IsSound [] e s = s
  run-IsSound ((now, c) ∷ l) e s = run-IsSound l (call now c e) (call-IsSound now c e s)
