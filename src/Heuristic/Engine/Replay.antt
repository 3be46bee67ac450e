-- ===== src/Heuristic/Engine/Replay.antt =====
-- heuristic/engine.py: the snapshots of the sketch, and the replay mode.
use csdlpt.Prelude.{
  ℕ, ◌+◌, Bool, true, false, not, ◌&&◌, ◌||◌, Option, none, some, List, [], ◌∷◌, ◌++◌, ℤ, pos, ◌-ℤ◌,
  ltb_ℤ, leb_ℤ, ltb, leb, ◌==◌, if◌then◌else◌, length, drop,
}
use csdlpt.Sketch.Sliding.{SketchDict, to_dict, from_dict}
use csdlpt.Heuristic.Engine.Estimate.{Settings, Estimate, times}

-- `_take_snapshot`
unfoldable pub take_snapshot : ℕ → Settings → Estimate → Estimate
take_snapshot now c e =
    let l = e.snapshots ++ (now, to_dict e.sketch) ∷ [] in
    record e { snapshots = if ltb c.snapshot_count (length l) then drop 1 l else l }

-- The newest snapshot that is not younger than the target.
unfoldable pub newest_until : ℤ → List (ℕ × SketchDict) → Option SketchDict
newest_until target [] = none
newest_until target ((t, d) ∷ l) = elim (newest_until target l) [
  | some d' ↦ some d'
  | none ↦ if leb_ℤ (pos t) target then some d else none
]

unfoldable pub rollback_to : ℤ → Estimate → Bool × Estimate
unfolding newest_until
rollback_to target e = elim (newest_until target e.snapshots) [
  | none ↦ (false, e)
  | some d ↦ (true, record e { sketch = from_dict d })
]

unfoldable pub is_replay : Settings → ℤ → Estimate → Bool
is_replay c lag e =
    ltb_ℤ (pos 0) e.baseline_lag && ltb_ℤ (times c.baseline_multiplier e.baseline_lag) lag

unfoldable pub detect_replay : ℕ → Settings → ℤ → Estimate → Bool × Estimate
unfolding is_replay rollback_to
detect_replay now c lag e =
    if is_replay c lag e
    then (
      true,
      (rollback_to (pos now -ℤ pos 5000) (record e {
        in_replay_mode = true;
        replay_start_time = if e.in_replay_mode then e.replay_start_time else now;
      })).1,
    )
    else (false, e)

-- A lag that is small again, for the length of the streak.
abbrev pub note_stable : ℕ → Settings → Estimate → Estimate
note_stable now c e =
    if e.replay_stable_since == 0
    then record e { replay_stable_since = now }
    else if leb (e.replay_stable_since + c.exit_streak) now
    then record e { in_replay_mode = false; replay_stable_since = 0; baseline_lag = e.L_eff }
    else e

unfoldable pub check_exit_replay : ℕ → Settings → Estimate → Estimate
check_exit_replay now c e =
    if not e.in_replay_mode || ltb now (e.replay_start_time + 30000)
    then e
    else if ltb_ℤ e.L_eff (times c.exit_multiplier e.baseline_lag)
    then note_stable now c e
    else record e { replay_stable_since = 0 }
