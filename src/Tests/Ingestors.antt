-- ===== src/Tests/Ingestors.antt =====
-- strict/ingestor_health.py: tests with two ingestors.
use csdlpt.Prelude.{ℕ, ◌≡◌, refl, [], ◌∷◌, pos, string_eq}
use csdlpt.Prelude.Mark
use csdlpt.Prelude.Mark.{neg_inf, at, ◌⊑◌}
use csdlpt.Prelude.Dict
use csdlpt.Strict.Coordinator.Global.{minimum}
use csdlpt.Strict.IngestorHealth.{
  IngestorHealthMonitor, HealthRecord, active, judge, judge_all, commits, lowest, evaluate,
}
use csdlpt.Strict.IngestorHealth.Bound.{evaluate-bound}

abbrev ingestor : ℕ → ℕ → HealthRecord
ingestor heartbeat commit = record {
  ingestor_id = "i";
  last_heartbeat = heartbeat;
  last_T_commit = commit;
  clock_skew_ms = 20;
  status = active;
  partitions_assigned = 0 ∷ [];
  last_log_offset = [];
  ingestor_clock = heartbeat;
  network_rtt_ms = 3;
}

-- At 30 seconds i is stuck, j is silent and k is well.
abbrev monitor : IngestorHealthMonitor
monitor = record {
  silent_timeout = 15000;
  stuck_timeout = 5000;
  critical_skew = 2000;
  w_meta_deviation = 10000;
  ingestors =
      ("i", ingestor 29000 21000) ∷ ("j", ingestor 9000 8000) ∷ ("k", ingestor 29500 28000) ∷ [];
  W_meta_global = neg_inf;
  alerts = [];
}

evaluate-bound_example : (evaluate 30000 neg_inf monitor).1.W_meta_global ⊑ at (pos 28000)
unfolding Dict.get
evaluate-bound_example =
    evaluate-bound 30000 neg_inf monitor "k" (ingestor 29500 28000) refl refl refl

evaluate_stuck : (evaluate 30000 neg_inf monitor).1.W_meta_global ≡ at (pos 21000)
unfolding evaluate judge_all judge commits lowest minimum Mark.min
evaluate_stuck = refl
