-- ===== src/Common/Window/Range.antt =====
-- common/window.py: what `windows_between` and `windows_overlapping` list.
use csdlpt.Prelude.{
  ℕ, zero, suc, ◌≤◌, ◌<◌, ◌≡◌, arith, ◌⊎◌, List, [], ◌∷◌, ℤ, pos, ◌+ℤ◌, ◌-ℤ◌, ◌≤ℤ◌, ◌<ℤ◌, +ℤ_parts,
  -ℤ_parts, All,
}
use csdlpt.Common.Window.{
  window_start, between_from, overlapping_from, windows_between, windows_overlapping, rounds,
}
use csdlpt.Common.Window.Floor.{window_start_bounds}

-- Some listed window holds the time `t`.
abbrev pub Covers : ℕ → ℤ → List ℤ → Type 0
Covers size t [] = ⊥
Covers size t (w ∷ ws) = ((w ≤ℤ t) × (t <ℤ w +ℤ pos size)) ⊎ Covers size t ws

between_from-Covers :
    (fuel size : ℕ) (ws stop t : ℤ)
    → 0 < size
    → rounds ws stop ≤ fuel
    → ws ≤ℤ t
    → t <ℤ stop
    → Covers size t (between_from fuel size ws stop)
unfolding between_from
between_from-Covers zero size ws stop t p f l u = absurd (omega (arith, -ℤ_parts stop ws))
between_from-Covers (suc fuel) size ws stop t p f l u = ground (
  arith,
  -ℤ_parts stop ws,
  -ℤ_parts stop (ws +ℤ pos size),
  +ℤ_parts ws (pos size),
  between_from-Covers fuel size (ws +ℤ pos size) stop t p,
)

-- Every time from `start` up to `stop` lies in a window that `windows_between` lists.
pub windows_between-Covers :
    (size : ℕ) (start stop t : ℤ)
    → 0 < size
    → start ≤ℤ t
    → t <ℤ stop
    → Covers size t (windows_between size start stop)
unfolding windows_between
windows_between-Covers size start stop t p l u =
    let b = window_start_bounds size start p in
    between_from-Covers _ size (window_start size start) stop t p (omega arith) (omega arith) u

abbrev pub Overlaps : ℕ → ℤ → ℤ → ℤ × ℤ → Type 0
Overlaps size from_time to_time (ws, we) =
    (we ≡ ws +ℤ pos size) × (from_time <ℤ we) × (ws <ℤ to_time)

overlapping_from-Overlaps :
    (fuel size : ℕ) (ws from_time to_time : ℤ)
    → All (Overlaps size from_time to_time) (overlapping_from fuel size ws from_time to_time)
unfolding overlapping_from
overlapping_from-Overlaps zero size ws a b = tt
overlapping_from-Overlaps (suc fuel) size ws a b =
    ground (arith, overlapping_from-Overlaps fuel size (ws +ℤ pos size) a b)

-- `windows_overlapping` lists windows only that meet the range.
pub windows_overlapping-Overlaps :
    (size : ℕ) (from_time to_time : ℤ)
    → All (Overlaps size from_time to_time) (windows_overlapping size from_time to_time)
unfolding windows_overlapping
windows_overlapping-Overlaps size a b = overlapping_from-Overlaps _ size _ a b

-- Some listed pair is a window that holds the time `t`.
abbrev pub CoversPair : ℕ → ℤ → List (ℤ × ℤ) → Type 0
CoversPair size t [] = ⊥
CoversPair size t ((ws, we) ∷ l) =
    ((we ≡ ws +ℤ pos size) × (ws ≤ℤ t) × (t <ℤ we)) ⊎ CoversPair size t l

overlapping_from-CoversPair :
    (fuel size : ℕ) (ws from_time to_time t : ℤ)
    → 0 < size
    → rounds ws to_time ≤ fuel
    → from_time ≤ℤ t
    → ws ≤ℤ t
    → t <ℤ to_time
    → CoversPair size t (overlapping_from fuel size ws from_time to_time)
unfolding overlapping_from
overlapping_from-CoversPair zero size ws a b t p f g l u = absurd (omega (arith, -ℤ_parts b ws))
overlapping_from-CoversPair (suc fuel) size ws a b t p f g l u = ground (
  arith,
  -ℤ_parts b ws,
  -ℤ_parts b (ws +ℤ pos size),
  +ℤ_parts ws (pos size),
  overlapping_from-CoversPair fuel size (ws +ℤ pos size) a b t p,
)

-- Every time of the range lies in a window that `windows_overlapping` lists.
pub windows_overlapping-CoversPair :
    (size : ℕ) (from_time to_time t : ℤ)
    → 0 < size
    → from_time ≤ℤ t
    → t <ℤ to_time
    → CoversPair size t (windows_overlapping size from_time to_time)
unfolding windows_overlapping
windows_overlapping-CoversPair size a b t p l u =
    let w = window_start_bounds size a p in
    overlapping_from-CoversPair _ size (window_start size a -ℤ pos size) a b t p (omega arith) l
      (omega (arith, -ℤ_parts (window_start size a) (pos size), w.0)) u
