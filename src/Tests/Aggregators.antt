-- ===== src/Tests/Aggregators.antt =====
-- heuristic/aggregator.py: tests of an aggregator with a store.
use csdlpt.Prelude.{◌≡◌, refl, arith, true, none, some, [], pos}
use csdlpt.Prelude.Mark.{at, ◌⊑◌}
use csdlpt.Heuristic.Aggregator.{HeuristicAggregator, init, receive_worker_watermark, save_state}
use csdlpt.Heuristic.Aggregator.Progress.{has_store, receive_worker_watermark-mono, save_state-init}

abbrev aggregator : HeuristicAggregator
aggregator = record {
  partitions = [];
  W_global_h = at (pos 3000);
  W_global_h_prev = at (pos 3000);
  is_active = true;
  store = some (record { part = []; state = none });
  state_file = none;
}

receive_worker_watermark-mono_example :
    (at (pos 3000) ⊑ (receive_worker_watermark 100 "w" 1 (at (pos 2000)) aggregator).W_global_h)
    × ((receive_worker_watermark 100 "w" 1 (at (pos 2000)) aggregator).W_global_h
        ⊑ (receive_worker_watermark 100 "w" 1 (at (pos 2000)) aggregator).W_global_h_prev)
receive_worker_watermark-mono_example =
    receive_worker_watermark-mono 100 "w" 1 (at (pos 2000)) aggregator (omega arith)

save_state-init_example :
    let b = init (save_state aggregator).store in
    (b.W_global_h ≡ at (pos 3000)) × (b.W_global_h_prev ≡ at (pos 3000))
unfolding has_store
save_state-init_example = save_state-init aggregator refl
