-- ===== src/Tests/Backpressure.antt =====
-- strict/backpressure.py: tests with two workers.
use csdlpt.Prelude.{◌≡◌, refl, true, false, List, [], ◌∷◌, nat_eq, string_eq}
use csdlpt.Strict.Backpressure.{init, is_paused}
use csdlpt.Strict.Backpressure.Gate.{
  Call, report, clear, run, open_gate, closes, watch_all, run-closed,
}

-- Partition 3 is full, then half empty; partition 4 is another one's.
abbrev calls : List Call
calls = report 1 "w" 3 500 ∷ report 2 "v" 4 20 ∷ report 3 "w" 3 250 ∷ clear "v" ∷ []

run-closed_example :
    is_paused 3 (run calls (init 500 100)) ≡ (watch_all 500 100 3 calls open_gate).closed
run-closed_example = run-closed 500 100 3 calls

gate_is_closed : (watch_all 500 100 3 calls open_gate).closed ≡ true
unfolding watch_all closes
gate_is_closed = refl

-- A worker that is cleared opens its partition, whoever has closed it.
clear_opens :
    is_paused 3 (run (report 1 "v" 3 20 ∷ report 2 "w" 3 500 ∷ clear "v" ∷ []) (init 500 100))
    ≡ false
unfolding watch_all closes
clear_opens = run-closed 500 100 3 (report 1 "v" 3 20 ∷ report 2 "w" 3 500 ∷ clear "v" ∷ [])
