-- ===== src/Strict/Backpressure.antt =====
-- strict/backpressure.py: `BackpressureController`, which pauses a partition whose buffer is full. The
-- two shares of a queue that `__init__` keeps are read by no method, and are left out. Gate is what
-- one partition sees of it.
use csdlpt.Prelude.{
  ℕ, ◌+◌, Bool, true, false, not, ◌&&◌, String, Option, none, some, List, [], ◌∷◌, ◌++◌, nat_eq,
  string_eq, ltb, leb, if◌then◌else◌, length, drop, keep,
}
use csdlpt.Prelude.Dict
use csdlpt.Prelude.Dict.{Dict}
pub mod Gate

pub data Action : Type 0 where
  pause resume : Action

pub record Signal : Type 0 where
  pub action : Action
  pub partition_id : ℕ
  pub worker_id : String
  pub buffer_size : ℕ
  pub threshold : ℕ
  pub timestamp : ℕ

pub record BackpressureController : Type 0 where
  pub pause_threshold : ℕ
  pub resume_threshold : ℕ
  pub buffer_sizes : Dict String (Dict ℕ ℕ)
  pub paused : Dict ℕ Bool
  pub pause_count : ℕ
  pub resume_count : ℕ
  pub signals : List Signal

unfoldable pub init : ℕ → ℕ → BackpressureController
init pause_threshold resume_threshold = record {
  pause_threshold = pause_threshold;
  resume_threshold = resume_threshold;
  buffer_sizes = [];
  paused = [];
  pause_count = 0;
  resume_count = 0;
  signals = [];
}

unfoldable pub is_paused : ℕ → BackpressureController → Bool
is_paused pid b = Dict.get_or (Dict.get b.paused pid) false

-- The sizes a worker has reported, by partition.
unfoldable pub sizes_of : String → BackpressureController → Dict ℕ ℕ
sizes_of w b = Dict.get_or (Dict.get b.buffer_sizes w) []

unfoldable pub note_size : String → ℕ → ℕ → BackpressureController → BackpressureController
note_size w pid size b = record b {
  buffer_sizes = Dict.put b.buffer_sizes w (Dict.put (sizes_of w b) pid size);
}

-- The last hundred signals.
unfoldable pub append_signal : Signal → List Signal → List Signal
append_signal s l = let l2 = l ++ (s ∷ []) in if ltb 100 (length l2) then drop 1 l2 else l2

abbrev signal_of : ℕ → Action → String → ℕ → ℕ → ℕ → Signal
signal_of now action w pid size threshold = record {
  action = action;
  partition_id = pid;
  worker_id = w;
  buffer_size = size;
  threshold = threshold;
  timestamp = now;
}

unfoldable pub signal_pause :
    Signal → BackpressureController → Option Signal × BackpressureController
signal_pause s b = (
  some s,
  record b {
    paused = Dict.put b.paused s.partition_id true;
    pause_count = b.pause_count + 1;
    signals = append_signal s b.signals;
  },
)

unfoldable pub signal_resume :
    Signal → BackpressureController → Option Signal × BackpressureController
signal_resume s b = (
  some s,
  record b {
    paused = Dict.put b.paused s.partition_id false;
    resume_count = b.resume_count + 1;
    signals = append_signal s b.signals;
  },
)

abbrev pub must_pause : ℕ → Bool → BackpressureController → Bool
must_pause size was_paused b = leb b.pause_threshold size && not was_paused

abbrev pub must_resume : ℕ → Bool → BackpressureController → Bool
must_resume size was_paused b = ltb size b.resume_threshold && was_paused

-- The signal, if the partition changes, is the answer.
abbrev pub decide :
    ℕ → String → ℕ → ℕ → BackpressureController → Option Signal × BackpressureController
decide now w pid size b =
    if must_pause size (is_paused pid b) b
    then signal_pause (signal_of now pause w pid size b.pause_threshold) b
    else if must_resume size (is_paused pid b) b
    then signal_resume (signal_of now resume w pid size b.resume_threshold) b
    else (none, b)

unfoldable pub report_buffer :
    ℕ → String → ℕ → ℕ → BackpressureController → Option Signal × BackpressureController
report_buffer now w pid size b = decide now w pid size (note_size w pid size b)

unfoldable pub paused_partitions : BackpressureController → List ℕ
paused_partitions b = Dict.keys (keep (λ e. e.1) b.paused)

unfoldable pub pop_all : {A : Type 0} → List ℕ → Dict ℕ A → Dict ℕ A
pop_all [] d = d
pop_all (pid ∷ l) d = pop_all l (Dict.remove d pid)

unfoldable pub clear_worker : String → BackpressureController → BackpressureController
clear_worker w b = record b {
  buffer_sizes = Dict.remove b.buffer_sizes w;
  paused = pop_all (Dict.keys (sizes_of w b)) b.paused;
}
