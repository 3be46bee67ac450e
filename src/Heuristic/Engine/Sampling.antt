-- ===== src/Heuristic/Engine/Sampling.antt =====
-- heuristic/engine.py: the sketch is fed with a lag, and read for `L_eff`.
use csdlpt.Prelude.{
  ℕ, ◌+◌, ◌||◌, Bool, true, false, Option, none, some, List, [], ◌∷◌, ◌++◌, ℤ, pos, ltb_ℤ, ltb, leb,
  ◌==◌, if◌then◌else◌, length, drop,
}
use csdlpt.Sketch.Sliding
use csdlpt.Sketch.Sliding.{SlidingWindow, SketchDict, to_dict, from_dict, total_count}
use csdlpt.Heuristic.ColdStart
use csdlpt.Heuristic.ColdStart.{ColdStartManager, is_warm, is_phase_0, max_ℤ, min_ℤ, get_L_eff}
use csdlpt.Heuristic.NegativeLag
use csdlpt.Heuristic.NegativeLag.{NegativeLagHandler, nth}
use csdlpt.Heuristic.Engine.Estimate.{Maps, Settings, Estimate, settle, check_burst, by_p99}
use csdlpt.Heuristic.Engine.Replay.{detect_replay}

module _ (maps : Maps) where
  -- A read of the sketch; none is the ValueError of a percentile above 1, or of sketches
  -- that do not merge.
  unfoldable pub read : ℕ → Estimate → Option ℤ × Estimate
  read now e =
      let (answer, s) = Sliding.quantile maps.floats now e.p_current e.sketch in
      (answer, record e { sketch = s })

  unfoldable pub check_adaptive_alpha : ℕ → Estimate → Estimate
  unfolding by_p99
  check_adaptive_alpha now e =
      if ltb (total_count e.sketch) 10 || ltb now (e.last_alpha_check + 30000)
      then e
      else (let (p99, s) = Sliding.quantile maps.floats now 990000 e.sketch in
          by_p99 p99 (record e { last_alpha_check = now; sketch = s }))

  unfoldable pub use_cold : Option ℤ × Estimate → Bool × Estimate
  use_cold (none, e) = (true, e)
  use_cold (some q, e) = (false, record e { L_eff = get_L_eff e.cold_start (some q) })

  -- `_update_L_eff` before the sketch is warm. The answer tells whether it raises.
  unfoldable pub update_cold : ℕ → Estimate → Bool × Estimate
  unfolding read use_cold
  update_cold now e₀ =
      let e = record e₀ { L_eff_prev = e₀.L_eff } in
      if leb 10 (total_count e.sketch)
      then use_cold (read now e)
      else (false, record e { L_eff = get_L_eff e.cold_start none })

  abbrev pub remember : ℤ → List ℤ → List ℤ
  remember q l = let l' = l ++ q ∷ [] in if ltb 60 (length l') then drop 1 l' else l'

  unfoldable pub use_warm : ℕ → Settings → Option ℤ × Estimate → Bool × Estimate
  unfolding settle check_burst check_adaptive_alpha
  use_warm now c (none, e) = (true, e)
  use_warm now c (some new, e) = (
    false,
    check_adaptive_alpha now (
        check_burst now c (record e {
          cached_sketch_count = total_count e.sketch;
          quantile_history = remember new e.quantile_history;
          L_eff = settle c new e.L_eff;
        })),
  )

  unfoldable pub update_warm : ℕ → Settings → Estimate → Bool × Estimate
  unfolding read use_warm
  update_warm now c e =
      if ltb (total_count e.sketch) 10 || (total_count e.sketch == e.cached_sketch_count)
      then (false, e)
      else use_warm now c (read now (record e { L_eff_prev = e.L_eff }))

  unfoldable pub update_L_eff : ℕ → Settings → ℕ → Estimate → Bool × Estimate
  unfolding update_cold update_warm
  update_L_eff now c total_received e₀ =
      let e = record e₀ { cold_start = ColdStart.update now total_received e₀.cold_start } in
      if is_warm e.cold_start then update_warm now c e else update_cold now e

  -- The update of the sketch in `process`, which a replay, the fallback or an extreme lag leaves out.
  unfoldable pub feed : Settings → ℤ → ℤ → ℕ → Estimate → Estimate
  feed c lag adjusted arrival_time e =
      if e.neg_lag.degraded_to_boo || ltb_ℤ c.max_lag_accepted lag
      then e
      else record e { sketch = Sliding.add maps.bucket_index adjusted (pos arrival_time) e.sketch }

  unfoldable pub sample : ℕ → Settings → ℤ → ℤ → ℕ → Estimate → Estimate
  unfolding feed detect_replay
  sample now c lag adjusted arrival_time e =
      if c.local_watermark_close
      then feed c lag adjusted arrival_time e
      else (let (replays, e') = detect_replay now c lag e in
          if replays then e' else feed c lag adjusted arrival_time e')

  -- The lag of an event: the tiers of the negative lags, then the sketch.
  unfoldable pub observe : ℕ → Settings → ℤ → ℕ → Estimate → Estimate
  unfolding sample
  observe now c lag arrival_time e =
      let h = NegativeLag.evaluate now (NegativeLag.observe now lag e.neg_lag) in
      let adjusted = if c.recalibration then NegativeLag.adjust_lag lag h else lag in
      sample now c lag adjusted arrival_time (record e { neg_lag = h })

  unfoldable pub use_recovered : Settings → Option ℤ × Estimate → Bool × Estimate
  use_recovered c (none, e) = (true, e)
  use_recovered c (some q, e) = (false, record e { L_eff = min_ℤ q c.L_max })

  -- The end of the fallback. The answer tells whether it raises.
  unfoldable pub recover : ℕ → Settings → Estimate → Bool × Estimate
  unfolding read use_recovered
  recover now c e =
      if NegativeLag.recovers now e.neg_lag
      then use_recovered c
          (read now (record e { neg_lag = NegativeLag.check_recovery now e.neg_lag }))
      else (false, e)
