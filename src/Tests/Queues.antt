-- ===== src/Tests/Queues.antt =====
-- heuristic/dlq.py: tests of the dead letter queue and of the delivery of corrections.
use csdlpt.Prelude.{
  ℕ, zero, suc, ◌≡◌, refl, false, String, none, some, [], ◌∷◌, pos, floor_to, ◌+ℤ◌, arith,
}
use csdlpt.Heuristic.Dlq.Pipeline.{DlqEntry, DlqPipeline}
use csdlpt.Heuristic.Dlq.Corrections.{
  GroupId, CorrectionMessage, compute_corrections, window_correction,
}
use csdlpt.Heuristic.Dlq.Protocol.{Result, incremental, init, apply_correction}
use csdlpt.Heuristic.Dlq.Grouping.{
  delta_of, count_in, lies_in, IsAligned, compute_corrections_count,
}
use csdlpt.Heuristic.Dlq.Redelivery.{apply_all, apply_all_redelivered}

abbrev entry : ℕ → DlqEntry
entry arrival = record {
  event_id = "a";
  T_event = pos 1000;
  arrival_time = arrival;
  lag = pos 0;
  W_h_at_arrival = pos 9000;
  lateness = pos 8000;
  partition_id = 3;
  original_status = 200;
  worker_id = "w";
  response = some (pos 7);
}

-- The second entry is equal to the first.
abbrev queue : DlqPipeline
queue = record {
  retention_days = pos 1;
  entries = entry 5 ∷ entry 5 ∷ entry 90000000 ∷ [];
  store = some [];
  entry_counter = 3;
  has_producer = false;
  sent = [];
}

abbrev first_window : GroupId
first_window = record { partition = 3; start = pos 0 }

abbrev ids : ℕ → String
ids zero = "c0"
ids (suc n) = "c1"

compute_corrections_count_example :
    delta_of first_window (compute_corrections ids none 50 false 5000 queue.entries)
    ≡ count_in 5000 3 (pos 0) queue.entries
unfolding IsAligned floor_to
compute_corrections_count_example =
    compute_corrections_count ids none 50 false 5000 3 (pos 0) queue.entries (omega arith) refl

three_late : count_in 5000 3 (pos 0) queue.entries ≡ 3
unfolding count_in lies_in ◌+ℤ◌
three_late = refl

abbrev message : CorrectionMessage
message = record {
  message_type = window_correction;
  window_id = first_window;
  correction_id = "c0";
  previous_count = 4;
  previous_sum = pos 20;
  corrected_count = 6;
  corrected_sum = pos 34;
  delta_count = 2;
  delta_sum = pos 14;
  late_log_ids = "a" ∷ [];
  previous_emit_timestamp = 1;
  correction_timestamp = 50;
}

abbrev result : Result
result = record { count = some 4; version = none; correction_history = none }

apply_all_redelivered_example :
    apply_correction 9 message
      (apply_all [] (apply_correction 8 message (init incremental none, result)))
    ≡ apply_all [] (apply_correction 8 message (init incremental none, result))
apply_all_redelivered_example =
    apply_all_redelivered 8 9 message message [] (init incremental none) result refl
