-- ===== src/Heuristic/NegativeLag.antt =====
-- heuristic/negative_lag.py: `NegativeLagHandler`, the clock skew tiers. Times and lags are
-- milliseconds; a rate is the two numbers it is made of.
use csdlpt.Prelude.{
  ℕ, zero, suc, ◌+◌, ◌*◌, ◌/◌, Bool, true, false, not, ◌&&◌, List, [], ◌∷◌, ◌++◌, ℤ, pos, neg_part,
  pos_part, ◌+ℤ◌, ltb_ℤ, ltb, ◌==◌, if◌then◌else◌, length, drop, keep,
}
use csdlpt.Prelude.Sort.{sort}

pub data LagTier : Type 0 where
  normal warning alert critical : LagTier

pub record NegativeLagHandler : Type 0 where
  pub window_seconds : ℕ
  pub observations : List (ℕ × Bool)
  pub neg_values : List ℤ
  pub last_tier : LagTier
  pub degraded_to_boo : Bool
  pub degrade_time : ℕ

unfoldable pub init : ℕ → NegativeLagHandler
init window_seconds = record {
  window_seconds = window_seconds;
  observations = [];
  neg_values = [];
  last_tier = normal;
  degraded_to_boo = false;
  degrade_time = 0;
}

-- `_prune`: from the left, up to the first that is young enough.
unfoldable pub prune : ℕ → ℕ → List (ℕ × Bool) → List (ℕ × Bool)
prune window now [] = []
prune window now ((t, b) ∷ l) =
    let rest = prune window now l in if ltb (t + window) now then rest else (t, b) ∷ l

abbrev pub is_neg : ℤ → Bool
is_neg lag = ltb_ℤ lag (pos 0)

-- The last thousand negative lags.
abbrev pub note_neg : ℤ → List ℤ → List ℤ
note_neg lag l =
    if is_neg lag
    then (let l' = l ++ lag ∷ [] in if ltb 1000 (length l') then drop 1 l' else l')
    else l

unfoldable pub observe : ℕ → ℤ → NegativeLagHandler → NegativeLagHandler
unfolding prune
observe now lag h = record h {
  neg_values = note_neg lag h.neg_values;
  observations = prune h.window_seconds now (h.observations ++ (now, is_neg lag) ∷ []);
}

-- The numerator of the rate; the denominator is the length.
unfoldable pub neg_count : NegativeLagHandler → ℕ
neg_count h = length (keep (λ p. p.1) h.observations)

-- `rate < 1 / d`; the rate of no observation is 0.
unfoldable pub rate_below : ℕ → NegativeLagHandler → Bool
unfolding neg_count
rate_below d h =
    if length h.observations == 0 then true else ltb (neg_count h * d) (length h.observations)

unfoldable pub tier_of : NegativeLagHandler → LagTier
unfolding rate_below
tier_of h =
    if rate_below 1000 h
    then normal
    else if rate_below 100 h
    then warning
    else if rate_below 20 h
    then alert
    else critical

abbrev pub is_critical : LagTier → Bool
is_critical critical = true
is_critical _ = false

unfoldable pub evaluate : ℕ → NegativeLagHandler → NegativeLagHandler
unfolding tier_of
evaluate now h =
    let t = tier_of h in
    let enters = is_critical t && not h.degraded_to_boo in
    record h {
      last_tier = t;
      degraded_to_boo = if is_critical t then true else h.degraded_to_boo;
      degrade_time = if enters then now else h.degrade_time;
    }

unfoldable pub nth : List ℤ → ℕ → ℤ
nth [] n = pos 0
nth (x ∷ l) zero = x
nth (x ∷ l) (suc n) = nth l n

-- `sorted_vals[len // 2]`, or 0 if there is none
unfoldable pub median : List ℤ → ℤ
unfolding nth
median l = nth (sort (λ x. x) l) (length l / 2)

abbrev pub abs : ℤ → ℤ
abs a = pos (pos_part a + neg_part a)

abbrev pub corrects : LagTier → Bool
corrects alert = true
corrects critical = true
corrects _ = false

unfoldable pub adjust_lag : ℤ → NegativeLagHandler → ℤ
unfolding median
adjust_lag lag h =
    if corrects h.last_tier && is_neg lag then lag +ℤ abs (median h.neg_values) else lag

-- `check_recovery`, after five minutes.
unfoldable pub recovers : ℕ → NegativeLagHandler → Bool
unfolding rate_below
recovers now h = h.degraded_to_boo && rate_below 100 h && ltb (h.degrade_time + 300000) now

unfoldable pub check_recovery : ℕ → NegativeLagHandler → NegativeLagHandler
unfolding recovers
check_recovery now h = if recovers now h then record h { degraded_to_boo = false } else h

unfoldable pub reset : NegativeLagHandler → NegativeLagHandler
reset h = record h {
  observations = [];
  neg_values = [];
  degraded_to_boo = false;
  last_tier = normal;
}
