-- ===== src/Heuristic/ColdStart.antt =====
-- heuristic/cold_start.py: `ColdStartManager`. Times and lags are milliseconds. What the object store
-- returns for a baseline is an argument.
use csdlpt.Prelude.{
  ℕ, ◌+◌, Bool, true, false, ◌&&◌, Option, none, some, ℤ, ltb_ℤ, ltb, leb, if◌then◌else◌,
}

pub data ColdStartPhase : Type 0 where
  phase_0 phase_1 normal : ColdStartPhase

pub record ColdStartManager : Type 0 where
  pub warmup_min_seconds : ℕ
  pub warmup_min_samples : ℕ
  pub L_max : ℤ
  pub baseline_from_history : Option ℤ
  pub start_time : ℕ
  pub phase : ColdStartPhase
  pub sample_count : ℕ

unfoldable pub init : ℕ → ℕ → ℕ → ℤ → ColdStartManager
init now warmup_min_seconds warmup_min_samples L_max = record {
  warmup_min_seconds = warmup_min_seconds;
  warmup_min_samples = warmup_min_samples;
  L_max = L_max;
  baseline_from_history = none;
  start_time = now;
  phase = phase_0;
  sample_count = 0;
}

abbrev pub is_warm : ColdStartManager → Bool
is_warm c = elim c.phase [ phase_0 ↦ false | phase_1 ↦ false | normal ↦ true ]

abbrev pub is_phase_0 : ColdStartManager → Bool
is_phase_0 c = elim c.phase [ phase_0 ↦ true | phase_1 ↦ false | normal ↦ false ]

unfoldable pub phase_of : ColdStartManager → ℕ → ℕ → ColdStartPhase
phase_of c now sample_count =
    if leb (c.start_time + c.warmup_min_seconds) now && leb c.warmup_min_samples sample_count
    then normal
    else if ltb now (c.start_time + 5000) && ltb sample_count 100
    then phase_0
    else phase_1

unfoldable pub update : ℕ → ℕ → ColdStartManager → ColdStartManager
unfolding phase_of
update now sample_count c = record c {
  sample_count = sample_count;
  phase = phase_of c now sample_count;
}

-- `max(a, b)` and `min(a, b)` of floats
abbrev pub max_ℤ : ℤ → ℤ → ℤ
max_ℤ a b = if ltb_ℤ a b then b else a

abbrev pub min_ℤ : ℤ → ℤ → ℤ
min_ℤ a b = if ltb_ℤ b a then b else a

unfoldable pub conservative_prior : ColdStartManager → ℤ
conservative_prior c = elim c.baseline_from_history [ none ↦ c.L_max | some b ↦ max_ℤ c.L_max b ]

unfoldable pub should_emit_watermark : ColdStartManager → Bool
should_emit_watermark c = elim c.phase [ phase_0 ↦ false | phase_1 ↦ true | normal ↦ true ]

unfoldable pub get_L_eff : ColdStartManager → Option ℤ → ℤ
unfolding conservative_prior
get_L_eff c none = conservative_prior c
get_L_eff c (some q) = elim c.phase [
  | phase_0 ↦ conservative_prior c
  | phase_1 ↦ max_ℤ q (conservative_prior c)
  | normal ↦ min_ℤ q c.L_max
]
