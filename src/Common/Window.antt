-- ===== src/Common/Window.antt =====
-- common/window.py: `TumblingWindow`, windows of `size` milliseconds aligned to the epoch.
pub mod Floor
pub mod Range
use csdlpt.Prelude.{
  ℕ, zero, suc, ◌+◌, ◌-◌, ◌*◌, ◌/◌, ◌≤◌, ◌<◌, List, [], ◌∷◌, Bool, true, false, Option, none, some,
  ℤ, pos, negsuc, pos_part, neg_part, ◌+ℤ◌, ◌-ℤ◌, ltb_ℤ, leb_ℤ, floor_to, if◌then◌else◌, leb,
}
use csdlpt.Common.Types.{WindowId}

-- `__init__`: `none` is the ValueError of a size that is not positive.
unfoldable pub init : ℤ → Option ℕ
init size_s = if leb_ℤ size_s (pos 0) then none else some (pos_part size_s)

-- `math.floor(event_time / self.size) * self.size`
unfoldable pub window_start : ℕ → ℤ → ℤ
window_start size t = floor_to size t

unfoldable pub window_end : ℕ → ℤ → ℤ
window_end size t = window_start size t +ℤ pos size

unfoldable pub window_id : ℕ → ℕ → ℤ → WindowId
window_id size partition_id t = record {
  partition = partition_id;
  start = window_start size t;
  stop = window_start size t +ℤ pos size;
}

-- The `while ws < end` loops. The fuel bounds the rounds; `rounds` is enough of it.
unfoldable pub between_from : ℕ → ℕ → ℤ → ℤ → List ℤ
between_from zero size ws stop = []
between_from (suc fuel) size ws stop =
    let rest = between_from fuel size (ws +ℤ pos size) stop in
    if ltb_ℤ ws stop then ws ∷ rest else []

unfoldable pub overlapping_from : ℕ → ℕ → ℤ → ℤ → ℤ → List (ℤ × ℤ)
overlapping_from zero size ws from_time to_time = []
overlapping_from (suc fuel) size ws from_time to_time =
    let rest = overlapping_from fuel size (ws +ℤ pos size) from_time to_time in
    let kept = if ltb_ℤ from_time (ws +ℤ pos size) then (ws, ws +ℤ pos size) ∷ rest else rest in
    if ltb_ℤ ws to_time then kept else []

-- The distance from `ws` up to `stop`, 0 if there is none: each round moves `ws` by at least 1.
abbrev pub rounds : ℤ → ℤ → ℕ
rounds ws stop = pos_part (stop -ℤ ws)

unfoldable pub windows_between : ℕ → ℤ → ℤ → List ℤ
unfolding window_start between_from
windows_between size start stop =
    let ws = window_start size start in between_from (rounds ws stop) size ws stop

unfoldable pub windows_overlapping : ℕ → ℤ → ℤ → List (ℤ × ℤ)
unfolding window_start overlapping_from
windows_overlapping size from_time to_time =
    let ws = window_start size from_time -ℤ pos size in
    overlapping_from (rounds ws to_time) size ws from_time to_time
