-- ===== src/Heuristic/Engine/Monotone.antt =====
-- heuristic/engine.py: the local watermark `W_h` over time.
use csdlpt.Prelude.{
  ℕ, ◌≡◌, refl, sym, subst, arith, int_laws, ◌≤◌, inl, inr, true, false, ℤ, pos, ◌-ℤ◌, ◌+ℤ◌, ◌≤ℤ◌,
  if◌then◌else◌, Bool-cases,
}
use csdlpt.Prelude.Mark
use csdlpt.Prelude.Mark.{Mark, neg_inf, at, ◌⊑◌, ⊑_refl, ⊑_trans, max_left, min_cases}
use csdlpt.Heuristic.ColdStart.{is_phase_0}
use csdlpt.Heuristic.Engine.Estimate.{Settings, Estimate}
use csdlpt.Heuristic.Engine.Watermark.{
  elapsed, max_advance, shift, started, limit, fall_back, compute_from, compute_watermark,
}

-- The clock has not been set back behind the times that the engine keeps.
pub record IsTimed (now : ℕ) (e : Estimate) : Type 0 where
  pub started_before : e.start_time ≤ now
  pub updated_before : e.last_wm_update_time ≤ now

advance_nonneg :
    (now : ℕ) (c : Settings) (e : Estimate) → IsTimed now e → pos 0 ≤ℤ max_advance now c e
unfolding max_advance elapsed ◌+ℤ◌
advance_nonneg now c e h = ground (arith, h.started_before, h.updated_before)

⊑_shift : (w : Mark) (a : ℤ) → pos 0 ≤ℤ a → w ⊑ shift a w
⊑_shift neg_inf a h = tt
⊑_shift (at t) a h = omega (int_laws, h)

⊑_started : (w candidate : Mark) → w ⊑ started w candidate
⊑_started neg_inf candidate = tt
⊑_started (at t) candidate = omega arith

⊑_min : (a b c : Mark) → a ⊑ b → a ⊑ c → a ⊑ Mark.min b c
⊑_min a b c p q = elim (min_cases b c) [
  | inl e ↦ subst (λ x. a ⊑ x) (sym e) p
  | inr e ↦ subst (λ x. a ⊑ x) (sym e) q
]

limit-mono :
    (now : ℕ) (c : Settings) (candidate : Mark) (e : Estimate)
    → IsTimed now e
    → e.W_h_prev ⊑ (limit now c candidate e).W_h
unfolding limit
limit-mono now c candidate e h =
    let prev = started e.W_h_prev candidate in
    let top = Mark.max prev candidate in
    let up =
      ⊑_trans e.W_h_prev prev top (⊑_started e.W_h_prev candidate) (max_left prev candidate) in
    let slow =
      ⊑_trans e.W_h_prev prev (shift (max_advance now c e) prev) (⊑_started e.W_h_prev candidate)
        (⊑_shift prev (max_advance now c e) (advance_nonneg now c e h)) in
    elim c.local_watermark_close
      as (λ b. e.W_h_prev ⊑ (if b then top else Mark.min top (shift (max_advance now c e) prev))) [
        | true ↦ up
        | false ↦ ⊑_min e.W_h_prev top (shift (max_advance now c e) prev) up slow
      ]

limit-IsTimed :
    (now : ℕ) (c : Settings) (candidate : Mark) (e : Estimate)
    → IsTimed now e
    → IsTimed now (limit now c candidate e)
unfolding limit
limit-IsTimed now c candidate e h = record {
  started_before = h.started_before;
  updated_before = omega arith;
}

-- What a step does to the watermark.
pub record Rises (now : ℕ) (e f : Estimate) : Type 0 where
  pub risen : e.W_h ⊑ f.W_h
  pub timed : IsTimed now f

fall_back-rises :
    (now : ℕ) (c : Settings) (candidate : Mark) (e : Estimate)
    → IsTimed now e
    → e.W_h_prev ⊑ (limit now c candidate (fall_back c e)).W_h
fall_back-rises now c candidate e h =
    elim e.neg_lag.degraded_to_boo
      as (λ b.
        e.W_h_prev ⊑ (limit now c candidate (if b then record e { L_eff = c.L_max } else e)).W_h) [
          | true ↦
              limit-mono now c candidate (record e { L_eff = c.L_max })
                (record { started_before = h.started_before; updated_before = h.updated_before })
          | false ↦ limit-mono now c candidate e h
        ]

fall_back-IsTimed :
    (now : ℕ) (c : Settings) (e : Estimate) → IsTimed now e → IsTimed now (fall_back c e)
fall_back-IsTimed now c e h = record {
  started_before = ground (arith, h.started_before);
  updated_before = ground (arith, h.updated_before);
}

compute_from-Rises :
    (now : ℕ) (c : Settings) (m : Mark) (e : Estimate)
    → e.W_h_prev ≡ e.W_h
    → IsTimed now e
    → Rises now e (compute_from now c m e)
unfolding compute_from
compute_from-Rises now c neg_inf e k h = record { risen = ⊑_refl e.W_h; timed = h }
compute_from-Rises now c (at t) e k h = elim (Bool-cases (is_phase_0 e.cold_start)) [
  | inl cold ↦ rw cold (record { risen = ⊑_refl e.W_h; timed = h })
  | inr warm ↦
      let candidate = at (t -ℤ (fall_back c e).L_eff) in
      rw warm (record {
        risen =
            subst (λ w. w ⊑ (limit now c candidate (fall_back c e)).W_h) k
              (fall_back-rises now c candidate e h);
        timed = limit-IsTimed now c candidate (fall_back c e) (fall_back-IsTimed now c e h);
      })
]

-- `_compute_watermark` never lowers `W_h` while the clock is not set back.
pub compute-Rises :
    (now : ℕ) (c : Settings) (e : Estimate)
    → IsTimed now e
    → Rises now e (compute_watermark now c e)
unfolding compute_watermark
compute-Rises now c e h =
    let r =
      compute_from-Rises now c e.max_event_time (record e { W_h_prev = e.W_h }) refl
        (record { started_before = h.started_before; updated_before = h.updated_before }) in
    record { risen = r.risen; timed = r.timed }
