-- ===== src/Tests/Heuristics.antt =====
-- heuristic/engine.py and local_ddsketch/compat.py: tests with the identity in place of two of the
-- floating point maps.
use csdlpt.Prelude.{
  ℕ, ◌*◌, ◌-◌, ◌/◌, ◌+◌, ◌≡◌, refl, arith, inl, eqb_ℤ, ◌-ℤ◌, keep, floor_to, true, false, none,
  some, List, [], ◌∷◌, ℤ, pos, int_eq, nat_eq, string_eq, String,
}
use csdlpt.Prelude.Mark.{at}
use csdlpt.Prelude.Sort.{sort}
use csdlpt.Prelude.Dict
use csdlpt.Prelude.Dict.{Dict}
use csdlpt.Common.Types.{LogEvent, WindowResult}
use csdlpt.Sketch.Buckets
use csdlpt.Sketch.Buckets.{Config, DdSketch}
use csdlpt.Sketch.Sliding
use csdlpt.Sketch.Sliding.{SlidingWindow}
use csdlpt.Sketch.Cache.{exact, IsFresh, add-IsFresh, quantile-exact}
use csdlpt.Heuristic.Engine.Estimate.{Maps, Settings}
use csdlpt.Heuristic.Engine.State.{HeuristicEngine, Tables, get_seek_offset}
use csdlpt.Heuristic.Engine.Process.{process}
use csdlpt.Heuristic.Engine.Storage.{init, checkpoint}
use csdlpt.Heuristic.Engine.Accounting.{IsSound}
use csdlpt.Heuristic.Engine.Run.{Call, event, global, flush_all, run}
use csdlpt.Heuristic.Engine.Monotone.{IsTimed, Rises}
use csdlpt.Heuristic.Engine.Rising.{process-Rises}
use csdlpt.Heuristic.Engine.Finality.{IsClosed, run-IsKept}
use csdlpt.Heuristic.Engine.Restart.{IsResumed, started, checkpoint-init}

abbrev maps : Maps
maps = record {
  bucket_index = λ c v. v;
  floats = record {
    power = λ c i. i;
    times = λ m x. x;
    ceil_of = λ n d total. (n * total + d - 1) / d;
  };
}

abbrev settings : Settings
settings = record {
  size = 5000;
  p_normal = 990000;
  p_safe = 999000;
  burst_threshold = 2000;
  recovery_minutes = 5;
  wm_max_advance_rate = 1500;
  l_eff_update_threshold = 100;
  l_eff_decay_rate = 50;
  max_future_skew = 300000;
  snapshot_interval = 10000;
  snapshot_count = 6;
  baseline_multiplier = 10;
  exit_multiplier = 2;
  exit_streak = 10000;
  max_lag_accepted = pos 60000;
  L_max = pos 60000;
  adaptive_percentile = true;
  recalibration = true;
  local_watermark_close = false;
}

abbrev config : Config
config = record { alpha = 10000; max_buckets = 1024; min_value = 1; max_value = 60000 }

abbrev sketch : SlidingWindow
sketch = record {
  window_seconds = 60000;
  sub_sketch_granularity = 1000;
  config = config;
  sketches = [];
  latest_time = none;
  cached_quantiles = [];
  cache_ts = 0;
}

abbrev event_at : String → ℕ → LogEvent
event_at id t = record { event_id = id; event_time = pos t; status = 200; offset = 0 }

abbrev life : List (ℕ × Call)
life =
    (100000, event 100000 (event_at "a" 99000))
    ∷ (100100, event 100100 (event_at "a" 99000))
    ∷ (100200, event 100200 (event_at "b" 1000))
    ∷ (100300, global (at (pos 100000)))
    ∷ (100400, flush_all)
    ∷ []

abbrev new_engine : HeuristicEngine
new_engine = init 90000 settings 10000 1000 sketch 3 "w" none none

new-IsTimed : IsTimed 100000 new_engine.est
unfolding init
new-IsTimed = record { started_before = omega arith; updated_before = omega arith }

process-Rises_example :
    Rises 100000 new_engine.est (process maps 100000 100000 (event_at "a" 99000) new_engine).1.est
process-Rises_example = process-Rises maps 100000 100000 (event_at "a" 99000) new_engine new-IsTimed

abbrev result : WindowResult
result = record {
  window_id = record { partition = 3; start = pos 95000; stop = pos 100000 };
  partition_id = 3;
  window_start = pos 95000;
  window_end = pos 100000;
  count = 1;
  status_500 = 0;
  is_speculative = true;
  version = 1;
}

abbrev one_closed : HeuristicEngine
one_closed = record new_engine {
  total_received = 1;
  on_time = 1;
  closed_windows = (pos 95000, result) ∷ [];
}

one_closed-IsSound : IsSound 0 0 one_closed
unfolding init Dict.get Dict.total
one_closed-IsSound = record {
  balance = refl;
  queued = refl;
  books = record {
    counted = refl;
    unique_open = tt;
    unique_closed = (refl, tt);
    apart = λ w. inl refl;
  };
}

one_closed-IsClosed : IsClosed (pos 95000) result one_closed
unfolding Dict.get eqb_ℤ
one_closed-IsClosed = refl

run-IsKept_example : IsClosed (pos 95000) result (run maps life one_closed)
run-IsKept_example =
    run-IsKept maps life (pos 95000) result one_closed one_closed-IsSound one_closed-IsClosed

abbrev tables : Tables
tables = record {
  ow = (pos 95000, record { count = 1; status_500 = 0 }) ∷ [];
  cw = [];
  si = ("a", 100000) ∷ [];
  late_events = none;
  checkpoint = none;
}

abbrev stored_engine : HeuristicEngine
stored_engine = record new_engine { store = some tables; kafka_seek_offset = 41 }

one_stored : Dict.IsDict tables.ow
unfolding Dict.get
one_stored = (refl, tt)

checkpoint-init_example :
    IsResumed stored_engine (
      started stored_engine tables 200000 settings 10000 1000 sketch 3 "w"
        (checkpoint stored_engine).store)
    × ((w : ℤ)
        → Dict.get
            (started stored_engine tables 200000 settings 10000 1000 sketch 3 "w"
              (checkpoint stored_engine).store).open_windows
            w
          ≡ Dict.get tables.ow w)
    × ((w : ℤ)
        → Dict.get
            (started stored_engine tables 200000 settings 10000 1000 sketch 3 "w"
              (checkpoint stored_engine).store).closed_windows
            w
          ≡ Dict.get tables.cw w)
    × (get_seek_offset (
          started stored_engine tables 200000 settings 10000 1000 sketch 3 "w"
            (checkpoint stored_engine).store)
        ≡ 1)
checkpoint-init_example =
    checkpoint-init stored_engine tables 200000 settings 10000 1000 sketch 3 "w" refl one_stored tt

-- Two granules with a sample each.
abbrev two_granules : SlidingWindow
two_granules =
    Sliding.add maps.bucket_index (pos 300) (pos 51000)
      (Sliding.add maps.bucket_index (pos 200) (pos 50000) sketch)

sketch-IsFresh : IsFresh maps.floats sketch
unfolding IsFresh
sketch-IsFresh q v p h = absurd (omega arith)

two_granules-IsFresh : IsFresh maps.floats two_granules
two_granules-IsFresh =
    let one = Sliding.add maps.bucket_index (pos 200) (pos 50000) sketch in
    add-IsFresh maps.floats maps.bucket_index (pos 300) (pos 51000) one
      (add-IsFresh maps.floats maps.bucket_index (pos 200) (pos 50000) sketch sketch-IsFresh)

quantile-exact_example :
    ((Sliding.quantile maps.floats 60000 500000 two_granules).0
      ≡ exact maps.floats 500000 two_granules.sketches)
    × IsFresh maps.floats (Sliding.quantile maps.floats 60000 500000 two_granules).1
quantile-exact_example =
    quantile-exact maps.floats 60000 500000 two_granules (omega arith) two_granules-IsFresh

median_is_200 : (Sliding.quantile maps.floats 60000 500000 two_granules).0 ≡ some (pos 200)
unfolding Sliding.quantile Sliding.add ◌-ℤ◌ keep Dict.put floor_to eqb_ℤ Dict.get Buckets.merge_into
    Buckets.add Buckets.quantile sort
median_is_200 = refl
