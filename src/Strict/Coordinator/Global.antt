-- ===== src/Strict/Coordinator/Global.antt =====
-- strict/coordinator.py: `_update_statuses` and `_compute_global`.
use csdlpt.Prelude.{
  ℕ, ◌-◌, Bool, true, false, not, ◌&&◌, ◌||◌, String, Option, none, some, List, [], ◌∷◌, ℤ, pos,
  ◌-ℤ◌, ltb_ℤ, leb_ℤ, string_eq, leb, if◌then◌else◌, keep, map,
}
use csdlpt.Prelude.Mark
use csdlpt.Prelude.Mark.{Mark, neg_inf, at}
use csdlpt.Prelude.Dict
use csdlpt.Prelude.Dict.{Dict}
use csdlpt.Common.Types.{WorkerStatus, active, stale, idle, failed}
use csdlpt.Strict.Coordinator.State.{
  Coordinator, PartitionInfo, SkewStatus, skew_ok, skew_warning, skew_critical, LagStatus, lag_ok,
  lag_warning, lag_high, lag_critical, CombinedStatus, healthy, critical, degraded, warning,
  Diagnosis, all_well, one_node_slow, cluster_slow, cluster_and_node_slow,
}

-- By the age of the last update. An update from the future counts as fresh, as a negative age does.
unfoldable pub status_of_age : ℕ → WorkerStatus
status_of_age age =
    if leb age 500
    then active
    else if leb age 2000
    then stale
    else if leb age 30000
    then idle
    else failed

abbrev pub refresh : ℕ → ℕ × PartitionInfo → ℕ × PartitionInfo
refresh now (pid, p) = (pid, record p { status = status_of_age (now - p.last_update) })

unfoldable pub update_statuses : ℕ → Coordinator → Coordinator
update_statuses now c = record c { partitions = map (refresh now) c.partitions }

-- `p.status in _ACTIVE_STATUSES`
abbrev pub is_live : WorkerStatus → Bool
is_live active = true
is_live stale = true
is_live idle = true
is_live failed = false

-- Whether a partition has a say in the minimum.
abbrev pub counts : PartitionInfo → Bool
counts p = is_live p.status && not p.is_temporary_idle

unfoldable pub minimum : Mark → List Mark → Mark
minimum m [] = m
minimum m (x ∷ xs) = minimum (Mark.min m x) xs

unfoldable pub active_watermarks : Dict ℕ PartitionInfo → List Mark
active_watermarks d = map (λ p. p.local_watermark) (keep counts (Dict.values d))

unfoldable pub global_from : List Mark → Coordinator → Coordinator
global_from [] c = c
global_from (x ∷ xs) c =
    let W = Mark.max c.W_global_prev (minimum x xs) in record c { W_global = W; W_global_prev = W }

-- The first block: the minimum of the partitions that count, never behind the last one.
unfoldable pub compute_watermark : Coordinator → Coordinator
unfolding global_from active_watermarks
compute_watermark c = global_from (active_watermarks c.partitions) c

abbrev pub earlier : ℤ → Option ℤ → ℤ
earlier t none = t
earlier t (some s) = if ltb_ℤ t s then t else s

-- One partition of the loop over the node watermarks; -inf is skipped.
abbrev pub add_node : PartitionInfo → Mark → Dict String ℤ → Dict String ℤ
add_node p neg_inf d = d
add_node p (at t) d =
    if is_live p.status then Dict.put d p.worker_id (earlier t (Dict.get d p.worker_id)) else d

unfoldable pub nodes : List PartitionInfo → Dict String ℤ → Dict String ℤ
nodes [] d = d
nodes (p ∷ ps) d = nodes ps (add_node p p.local_watermark d)

unfoldable pub largest : ℤ → List ℤ → ℤ
largest m [] = m
largest m (x ∷ xs) = largest (if ltb_ℤ m x then x else m) xs

-- max(W_max - lw), the first value given apart
unfoldable pub skew : ℤ → List ℤ → ℤ
unfolding largest
skew x xs = let W_max = largest x xs in largest (W_max -ℤ x) (map (λ y. W_max -ℤ y) xs)

unfoldable pub status_of_skew : ℤ → SkewStatus
status_of_skew s =
    if leb_ℤ s (pos 1000)
    then skew_ok
    else if leb_ℤ s (pos 5000)
    then skew_warning
    else skew_critical

abbrev pub with_skew : ℤ → Coordinator → Coordinator
with_skew s c = record c { node_skew_max_ms = s; skew_status = status_of_skew s }

unfoldable pub skew_from : List ℤ → Coordinator → Coordinator
unfolding skew status_of_skew
skew_from [] c = c
skew_from (x ∷ xs) c = with_skew (skew x xs) c

unfoldable pub compute_skew : Coordinator → Coordinator
unfolding nodes skew_from
compute_skew c = elim c.partitions [
  | [] ↦ c
  | p ∷ ps ↦
      let d = nodes (Dict.values (p ∷ ps)) [] in
      skew_from (Dict.values d) (record c { node_watermarks = d })
]

-- 0 while there is no finite global watermark
unfoldable pub lag_of : ℕ → Coordinator → ℤ
lag_of now c = elim c.W_global [ neg_inf ↦ pos 0 | at W ↦ pos now -ℤ W -ℤ c.delta_base ]

unfoldable pub status_of_lag : ℤ → LagStatus
status_of_lag l =
    if ltb_ℤ l (pos 12000)
    then lag_ok
    else if ltb_ℤ l (pos 30000)
    then lag_warning
    else if ltb_ℤ l (pos 60000)
    then lag_high
    else lag_critical

unfoldable pub compute_lag : ℕ → Coordinator → Coordinator
unfolding lag_of status_of_lag
compute_lag now c =
    let l = lag_of now c in record c { watermark_lag = l; lag_status = status_of_lag l }

abbrev pub skew_is_ok : SkewStatus → Bool
skew_is_ok skew_ok = true
skew_is_ok _ = false

abbrev pub lag_is_ok : LagStatus → Bool
lag_is_ok lag_ok = true
lag_is_ok _ = false

abbrev pub skew_is_critical : SkewStatus → Bool
skew_is_critical skew_critical = true
skew_is_critical _ = false

abbrev pub lag_is_critical : LagStatus → Bool
lag_is_critical lag_critical = true
lag_is_critical _ = false

abbrev pub skew_is_warning : SkewStatus → Bool
skew_is_warning skew_warning = true
skew_is_warning _ = false

-- `in ("Warning", "High")`
abbrev pub lag_is_raised : LagStatus → Bool
lag_is_raised lag_warning = true
lag_is_raised lag_high = true
lag_is_raised _ = false

unfoldable pub combine : SkewStatus → LagStatus → CombinedStatus
combine s l =
    if skew_is_ok s && lag_is_ok l
    then healthy
    else if skew_is_critical s || lag_is_critical l
    then critical
    else if skew_is_warning s || lag_is_raised l
    then degraded
    else warning

unfoldable pub diagnose : ℤ → ℤ → Diagnosis
diagnose skew_ms lag =
    let high_skew = ltb_ℤ (pos 1000) skew_ms in
    let high_lag = ltb_ℤ (pos 30000) lag in
    if not high_skew && not high_lag
    then all_well
    else if high_skew && not high_lag
    then one_node_slow
    else if not high_skew && high_lag
    then cluster_slow
    else cluster_and_node_slow

unfoldable pub compute_diagnosis : Coordinator → Coordinator
unfolding combine diagnose
compute_diagnosis c = record c {
  combined_status = combine c.skew_status c.lag_status;
  combined_diagnosis = diagnose c.node_skew_max_ms c.watermark_lag;
}

unfoldable pub compute_global : ℕ → Coordinator → Coordinator
unfolding compute_watermark compute_skew compute_lag compute_diagnosis
compute_global now c = compute_diagnosis (compute_lag now (compute_skew (compute_watermark c)))
