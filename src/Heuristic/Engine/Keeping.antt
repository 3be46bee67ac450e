-- ===== src/Heuristic/Engine/Keeping.antt =====
-- heuristic/engine.py: the estimation steps that leave `W_h` and the times of its limit alone.
use csdlpt.Prelude.{
  ℕ, ◌≡◌, refl, ◌∙◌, arith, ◌||◌, ◌==◌, true, false, Option, none, some, inl, inr, Bool-cases, leb,
  ℤ, if◌then◌else◌, ltb,
}
use csdlpt.Sketch.Sliding.{total_count}
use csdlpt.Heuristic.NegativeLag
use csdlpt.Heuristic.ColdStart
use csdlpt.Heuristic.ColdStart.{is_phase_0, is_warm}
use csdlpt.Heuristic.Engine.Estimate.{Maps, Settings, Estimate, settle, check_burst, by_p99}
use csdlpt.Heuristic.Engine.Replay.{detect_replay, rollback_to, check_exit_replay}
use csdlpt.Heuristic.Engine.Sampling.{
  read, remember, check_adaptive_alpha, update_cold, update_warm, update_L_eff, feed, sample,
  observe, recover, use_cold, use_warm, use_recovered,
}

-- The steps that do not touch the watermark.
pub record KeepsMark (e f : Estimate) : Type 0 where
  pub mark : f.W_h ≡ e.W_h
  pub start : f.start_time ≡ e.start_time
  pub updated : f.last_wm_update_time ≡ e.last_wm_update_time

pub kept : {e : Estimate} → KeepsMark e e
kept = record { mark = refl; start = refl; updated = refl }

pub keeps_trans : (a b c : Estimate) → KeepsMark a b → KeepsMark b c → KeepsMark a c
keeps_trans a b c p q = record {
  mark = q.mark ∙ p.mark;
  start = q.start ∙ p.start;
  updated = q.updated ∙ p.updated;
}

detect-KeepsMark :
    (now : ℕ) (c : Settings) (lag : ℤ) (e : Estimate) → KeepsMark e (detect_replay now c lag e).1
unfolding detect_replay rollback_to
detect-KeepsMark now c lag e = record {
  mark = ground arith;
  start = ground arith;
  updated = ground arith;
}

pub exit-KeepsMark :
    (now : ℕ) (c : Settings) (e : Estimate) → KeepsMark e (check_exit_replay now c e)
unfolding check_exit_replay
exit-KeepsMark now c e = record {
  mark = ground arith;
  start = ground arith;
  updated = ground arith;
}

burst-KeepsMark : (now : ℕ) (c : Settings) (e : Estimate) → KeepsMark e (check_burst now c e)
unfolding check_burst
burst-KeepsMark now c e = record {
  mark = ground arith;
  start = ground arith;
  updated = ground arith;
}

module _ (maps : Maps) where
  alpha-KeepsMark : (now : ℕ) (e : Estimate) → KeepsMark e (check_adaptive_alpha maps now e)
  unfolding check_adaptive_alpha by_p99
  alpha-KeepsMark now e = record {
    mark = ground arith;
    start = ground arith;
    updated = ground arith;
  }

  feed-KeepsMark :
      (c : Settings) (lag adjusted : ℤ) (t : ℕ) (e : Estimate)
      → KeepsMark e (feed maps c lag adjusted t e)
  unfolding feed
  feed-KeepsMark c lag adjusted t e = record {
    mark = ground arith;
    start = ground arith;
    updated = ground arith;
  }

  read-KeepsMark : (now : ℕ) (e : Estimate) → KeepsMark e (read maps now e).1
  unfolding read
  read-KeepsMark now e = record { mark = refl; start = refl; updated = refl }

  use_cold-KeepsMark : (a : Option ℤ × Estimate) → KeepsMark a.1 (use_cold maps a).1
  unfolding use_cold
  use_cold-KeepsMark (none, e) = kept
  use_cold-KeepsMark (some q, e) = record { mark = refl; start = refl; updated = refl }

  cold-KeepsMark : (now : ℕ) (e : Estimate) → KeepsMark e (update_cold maps now e).1
  unfolding update_cold
  cold-KeepsMark now e₀ =
      let e = record e₀ { L_eff_prev = e₀.L_eff } in
      let first : KeepsMark e₀ e = record { mark = refl; start = refl; updated = refl } in
      elim (Bool-cases (leb 10 (total_count e₀.sketch))) [
        | inl many ↦ rw many (
            keeps_trans e₀ e (use_cold maps (read maps now e)).1 first (
              keeps_trans e (read maps now e).1 (use_cold maps (read maps now e)).1
                (read-KeepsMark now e) (use_cold-KeepsMark (read maps now e))))
        | inr few ↦ rw few (record { mark = refl; start = refl; updated = refl })
      ]

  use_warm-KeepsMark :
      (now : ℕ) (c : Settings) (a : Option ℤ × Estimate) → KeepsMark a.1 (use_warm maps now c a).1
  unfolding use_warm
  use_warm-KeepsMark now c (none, e) = kept
  use_warm-KeepsMark now c (some new, e) =
      let e₁ = record e {
        cached_sketch_count = total_count e.sketch;
        quantile_history = remember maps new e.quantile_history;
        L_eff = settle c new e.L_eff;
      } in
      let e₂ = check_burst now c e₁ in
      keeps_trans e e₂ (check_adaptive_alpha maps now e₂)
        (keeps_trans e e₁ e₂ (record { mark = refl; start = refl; updated = refl })
          (burst-KeepsMark now c e₁))
        (alpha-KeepsMark now e₂)

  warm-KeepsMark :
      (now : ℕ) (c : Settings) (e : Estimate) → KeepsMark e (update_warm maps now c e).1
  unfolding update_warm
  warm-KeepsMark now c e₀ =
      let e = record e₀ { L_eff_prev = e₀.L_eff } in
      let first : KeepsMark e₀ e = record { mark = refl; start = refl; updated = refl } in
      elim (Bool-cases
        (ltb (total_count e₀.sketch) 10 || (total_count e₀.sketch == e₀.cached_sketch_count))) [
          | inl same ↦ rw same kept
          | inr other ↦ rw other (
              keeps_trans e₀ e (use_warm maps now c (read maps now e)).1 first (
                keeps_trans e (read maps now e).1 (use_warm maps now c (read maps now e)).1
                  (read-KeepsMark now e) (use_warm-KeepsMark now c (read maps now e))))
        ]

  pub update-KeepsMark :
      (now : ℕ) (c : Settings) (n : ℕ) (e : Estimate) → KeepsMark e (update_L_eff maps now c n e).1
  unfolding update_L_eff
  update-KeepsMark now c n e₀ =
      let e = record e₀ { cold_start = ColdStart.update now n e₀.cold_start } in
      elim (is_warm e.cold_start)
        as (λ b. KeepsMark e₀ (if b then update_warm maps now c e else update_cold maps now e).1) [
          | true ↦
              (let k = warm-KeepsMark now c e in
                record { mark = k.mark; start = k.start; updated = k.updated })
          | false ↦
              (let k = cold-KeepsMark now e in
                record { mark = k.mark; start = k.start; updated = k.updated })
        ]

  sample-KeepsMark :
      (now : ℕ) (c : Settings) (lag adjusted : ℤ) (t : ℕ) (e : Estimate)
      → KeepsMark e (sample maps now c lag adjusted t e)
  unfolding sample
  sample-KeepsMark now c lag adjusted t e =
      let (replays, e') = detect_replay now c lag e in
      let d = detect-KeepsMark now c lag e in
      elim c.local_watermark_close
        as (λ b. KeepsMark e (
          if b
          then feed maps c lag adjusted t e
          else (if replays then e' else feed maps c lag adjusted t e'))) [
            | true ↦ feed-KeepsMark c lag adjusted t e
            | false ↦
                elim replays
                  as (λ b. KeepsMark e (if b then e' else feed maps c lag adjusted t e')) [
                    | true ↦ d
                    | false ↦
                        keeps_trans e e' (feed maps c lag adjusted t e') d
                          (feed-KeepsMark c lag adjusted t e')
                  ]
          ]

  pub observe-KeepsMark :
      (now : ℕ) (c : Settings) (lag : ℤ) (t : ℕ) (e : Estimate)
      → KeepsMark e (observe maps now c lag t e)
  unfolding observe
  observe-KeepsMark now c lag t e =
      let h = NegativeLag.evaluate now (NegativeLag.observe now lag e.neg_lag) in
      let adjusted = if c.recalibration then NegativeLag.adjust_lag lag h else lag in
      let k = sample-KeepsMark now c lag adjusted t (record e { neg_lag = h }) in
      record { mark = k.mark; start = k.start; updated = k.updated }

  use_recovered-KeepsMark :
      (c : Settings) (a : Option ℤ × Estimate) → KeepsMark a.1 (use_recovered maps c a).1
  unfolding use_recovered
  use_recovered-KeepsMark c (none, e) = kept
  use_recovered-KeepsMark c (some q, e) = record { mark = refl; start = refl; updated = refl }

  pub recover-KeepsMark :
      (now : ℕ) (c : Settings) (e : Estimate) → KeepsMark e (recover maps now c e).1
  unfolding recover
  recover-KeepsMark now c e₀ =
      let e = record e₀ { neg_lag = NegativeLag.check_recovery now e₀.neg_lag } in
      let first : KeepsMark e₀ e = record { mark = refl; start = refl; updated = refl } in
      elim (Bool-cases (NegativeLag.recovers now e₀.neg_lag)) [
        | inl ends ↦ rw ends (
            keeps_trans e₀ e (use_recovered maps c (read maps now e)).1 first (
              keeps_trans e (read maps now e).1 (use_recovered maps c (read maps now e)).1
                (read-KeepsMark now e) (use_recovered-KeepsMark c (read maps now e))))
        | inr stays ↦ rw stays kept
      ]
