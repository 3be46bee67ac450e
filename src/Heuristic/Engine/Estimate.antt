-- ===== src/Heuristic/Engine/Estimate.antt =====
-- heuristic/engine.py: the attributes of `HeuristicWatermarkEngine` that estimate the watermark. Times
-- and lags are milliseconds, also in the sketch; a percentile and alpha are millionths, a ratio is
-- thousandths. An advance or a decay is rounded down to a millisecond.
use csdlpt.Prelude.{
  ℕ, ◌+◌, ◌-◌, ◌*◌, ◌/◌, Bool, true, false, not, ◌&&◌, ◌||◌, Option, none, some, List, [], ℤ, pos,
  negsuc, pos_part, neg_part, sub_ℕ, ◌-ℤ◌, ltb_ℤ, leb_ℤ, ltb, if◌then◌else◌, length, take,
}
use csdlpt.Prelude.Mark.{Mark}
use csdlpt.Prelude.Sort.{sort}
use csdlpt.Sketch.Buckets.{Config, Floats}
use csdlpt.Sketch.Sliding.{SlidingWindow, SketchDict}
use csdlpt.Heuristic.ColdStart.{ColdStartManager, max_ℤ, min_ℤ}
use csdlpt.Heuristic.NegativeLag
use csdlpt.Heuristic.NegativeLag.{NegativeLagHandler, nth}

-- The floating point operations of the sketch.
pub record Maps : Type 0 where
  pub bucket_index : Config → ℤ → ℤ
  pub floats : Floats

-- `DEFAULT_PARAMS` with what the environment overrides, and the three flags.
pub record Settings : Type 0 where
  pub size : ℕ
  pub p_normal : ℕ
  pub p_safe : ℕ
  pub burst_threshold : ℕ
  pub recovery_minutes : ℕ
  pub wm_max_advance_rate : ℕ
  pub l_eff_update_threshold : ℕ
  pub l_eff_decay_rate : ℕ
  pub max_future_skew : ℕ
  pub snapshot_interval : ℕ
  pub snapshot_count : ℕ
  pub baseline_multiplier : ℕ
  pub exit_multiplier : ℕ
  pub exit_streak : ℕ
  pub max_lag_accepted : ℤ
  pub L_max : ℤ
  pub adaptive_percentile : Bool
  pub recalibration : Bool
  pub local_watermark_close : Bool

pub record Estimate : Type 0 where
  pub sketch : SlidingWindow
  pub cold_start : ColdStartManager
  pub neg_lag : NegativeLagHandler
  pub W_h : Mark
  pub W_h_prev : Mark
  pub W_global_h : Mark
  pub max_event_time : Mark
  pub L_eff : ℤ
  pub L_eff_prev : ℤ
  pub p_current : ℕ
  pub in_burst : Bool
  pub burst_start : ℕ
  pub quantile_history : List ℤ
  pub current_alpha : ℕ
  pub last_alpha_check : ℕ
  pub cached_sketch_count : ℕ
  pub snapshots : List (ℕ × SketchDict)
  pub last_snapshot : ℕ
  pub in_replay_mode : Bool
  pub replay_start_time : ℕ
  pub baseline_lag : ℤ
  pub replay_stable_since : ℕ
  pub start_time : ℕ
  pub last_wm_update_time : ℕ

-- `n * a`, and `a * r` for a ratio r of thousandths
abbrev pub times : ℕ → ℤ → ℤ
times n a = sub_ℕ (n * pos_part a) (n * neg_part a)

abbrev pub scaled : ℕ → ℤ → ℤ
scaled r (pos n) = pos (n * r / 1000)
scaled r (negsuc n) = sub_ℕ 0 (((n + 1) * r + 999) / 1000)

-- `abs(new - L) / max(L, 0.001) >= threshold`
unfoldable pub is_drift : ℕ → ℤ → ℤ → Bool
is_drift threshold new L =
    leb_ℤ (times threshold (max_ℤ L (pos 1))) (times 1000 (NegativeLag.abs (new -ℤ L)))

-- The hysteresis of `_update_L_eff`.
unfoldable pub settle : Settings → ℤ → ℤ → ℤ
unfolding is_drift
settle c new L =
    let raised = if is_drift c.l_eff_update_threshold new L then min_ℤ new c.L_max else L in
    if c.local_watermark_close && ltb_ℤ new L
    then min_ℤ L (max_ℤ new (scaled (1000 - c.l_eff_decay_rate) L))
    else raised

-- `recent / baseline > burst_threshold`, where the baseline is positive.
unfoldable pub is_burst : ℕ → List ℤ → Bool
is_burst threshold history =
    let n = length history - 1 in
    let recent = nth history n in
    let baseline = nth (sort (λ x. x) (take n history)) (n / 2) in
    ltb_ℤ (pos 0) baseline && ltb_ℤ (times threshold baseline) (times 1000 recent)

abbrev pub enter_burst : ℕ → Settings → Estimate → Estimate
enter_burst now c e =
    if e.in_burst then e else record e { in_burst = true; burst_start = now; p_current = c.p_safe }

abbrev pub leave_burst : ℕ → Settings → Estimate → Estimate
leave_burst now c e =
    if e.in_burst && ltb (e.burst_start + c.recovery_minutes * 60000) now
    then record e { in_burst = false; p_current = c.p_normal }
    else e

unfoldable pub check_burst : ℕ → Settings → Estimate → Estimate
unfolding is_burst
check_burst now c e =
    if not c.adaptive_percentile || ltb (length e.quantile_history) 30
    then e
    else if is_burst c.burst_threshold e.quantile_history
    then enter_burst now c e
    else leave_burst now c e

-- A new alpha, with the sketches and their cache cleared.
abbrev pub set_alpha : ℕ → Estimate → Estimate
set_alpha alpha e = record e {
  current_alpha = alpha;
  sketch = record e.sketch {
    config = record e.sketch.config { alpha = alpha };
    sketches = [];
    cached_quantiles = [];
  };
}

unfoldable pub by_p99 : Option ℤ → Estimate → Estimate
by_p99 none e = e
by_p99 (some p99) e =
    if ltb_ℤ p99 (pos 1000) && ltb 1000 e.current_alpha
    then set_alpha 1000 e
    else if ltb_ℤ (pos 30000) p99 && ltb e.current_alpha 10000
    then set_alpha 10000 e
    else e
