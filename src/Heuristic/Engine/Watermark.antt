-- ===== src/Heuristic/Engine/Watermark.antt =====
-- heuristic/engine.py: `_compute_watermark`.
use csdlpt.Prelude.{ℕ, ℤ, pos, sub_ℕ, ◌+ℤ◌, ◌-ℤ◌, ltb_ℤ, ltb, if◌then◌else◌}
use csdlpt.Prelude.Mark
use csdlpt.Prelude.Mark.{Mark, neg_inf, at}
use csdlpt.Heuristic.ColdStart.{is_phase_0}
use csdlpt.Heuristic.Engine.Estimate.{Settings, Estimate, scaled}

-- `elapsed` of the rate limit, which a clock that was set back makes negative.
unfoldable pub elapsed : ℕ → Estimate → ℤ
elapsed now e =
    sub_ℕ now (if ltb 0 e.last_wm_update_time then e.last_wm_update_time else e.start_time)

unfoldable pub max_advance : ℕ → Settings → Estimate → ℤ
unfolding elapsed
max_advance now c e =
    scaled c.wm_max_advance_rate (elapsed now e)
    +ℤ (if ltb_ℤ (pos 100) (elapsed now e) then pos c.size else pos 0)

abbrev pub shift : ℤ → Mark → Mark
shift a neg_inf = neg_inf
shift a (at t) = at (t +ℤ a)

-- `if self.W_h_prev == -inf: self.W_h_prev = candidate`
abbrev pub started : Mark → Mark → Mark
started neg_inf candidate = candidate
started (at t) candidate = at t

-- From the candidate on.
unfoldable pub limit : ℕ → Settings → Mark → Estimate → Estimate
unfolding max_advance
limit now c candidate e =
    let prev = started e.W_h_prev candidate in
    let top = Mark.max prev candidate in
    record e {
      W_h_prev = prev;
      W_h =
          if c.local_watermark_close then top else Mark.min top (shift (max_advance now c e) prev);
      last_wm_update_time = now;
    }

-- `if should_degrade_to_boo()`
abbrev pub fall_back : Settings → Estimate → Estimate
fall_back c e = if e.neg_lag.degraded_to_boo then record e { L_eff = c.L_max } else e

unfoldable pub compute_from : ℕ → Settings → Mark → Estimate → Estimate
unfolding limit
compute_from now c neg_inf e = e
compute_from now c (at t) e =
    if is_phase_0 e.cold_start
    then e
    else (let e' = fall_back c e in limit now c (at (t -ℤ e'.L_eff)) e')

unfoldable pub compute_watermark : ℕ → Settings → Estimate → Estimate
unfolding compute_from
compute_watermark now c e = compute_from now c e.max_event_time (record e { W_h_prev = e.W_h })
