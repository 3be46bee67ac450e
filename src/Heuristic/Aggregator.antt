-- ===== src/Heuristic/Aggregator.antt =====
-- heuristic/aggregator.py: `HeuristicAggregator`, without the node skew and the lag that it reports.
-- One reading of the clock serves a call; times are milliseconds.
pub mod Progress
use csdlpt.Prelude.{
  ℕ, ◌-◌, Bool, true, false, String, Option, none, some, List, [], ◌∷◌, nat_eq, leb, if◌then◌else◌,
  keep, map,
}
use csdlpt.Prelude.Mark
use csdlpt.Prelude.Mark.{Mark, neg_inf}
use csdlpt.Prelude.Dict
use csdlpt.Prelude.Dict.{Dict}
use csdlpt.Common.Types.{WorkerStatus, active, stale, idle, failed}

pub record PartitionWatermark : Type 0 where
  pub partition_id : ℕ
  pub worker_id : String
  pub W_h : Mark
  pub last_update : ℕ
  pub status : WorkerStatus

-- The store by prefix: "part:" and "meta:state".
pub record Disk : Type 0 where
  pub part : Dict ℕ PartitionWatermark
  pub state : Option Mark

pub record StateFile : Type 0 where
  pub W_global_h : Mark
  pub partitions : Dict ℕ PartitionWatermark

pub record HeuristicAggregator : Type 0 where
  pub partitions : Dict ℕ PartitionWatermark
  pub W_global_h : Mark
  pub W_global_h_prev : Mark
  pub is_active : Bool
  pub store : Option Disk
  pub state_file : Option StateFile

abbrev put_part : ℕ → Option PartitionWatermark → Disk → Disk
put_part pid none d = d
put_part pid (some p) d = record d { part = Dict.put d.part pid p }

abbrev on_disk : (Disk → Disk) → Option Disk → Option Disk
on_disk f none = none
on_disk f (some d) = some (f d)

-- `_persist_partition`
unfoldable pub persist_partition : ℕ → HeuristicAggregator → HeuristicAggregator
persist_partition pid a = record a {
  store = on_disk (put_part pid (Dict.get a.partitions pid)) a.store;
}

put_partitions :
    List (ℕ × PartitionWatermark) → Dict ℕ PartitionWatermark → Dict ℕ PartitionWatermark
put_partitions [] d = d
put_partitions ((pid, p) ∷ l) d = put_partitions l (Dict.put d pid p)

abbrev read_meta : Option Mark → HeuristicAggregator → HeuristicAggregator
read_meta none a = a
read_meta (some W) a = record a { W_global_h = W; W_global_h_prev = W }

-- `_load_from_store`
unfoldable pub load_from_store : HeuristicAggregator → HeuristicAggregator
unfolding put_partitions
load_from_store a = elim a.store [
  | none ↦ a
  | some d ↦ read_meta d.state (record a { partitions = put_partitions d.part a.partitions })
]

-- `__init__`
unfoldable pub init : Option Disk → HeuristicAggregator
unfolding load_from_store
init store = load_from_store (record {
  partitions = [];
  W_global_h = neg_inf;
  W_global_h_prev = neg_inf;
  is_active = true;
  store = store;
  state_file = none;
})

unfoldable pub status_of_age : ℕ → WorkerStatus
status_of_age age =
    if leb age 500
    then active
    else if leb age 2000
    then stale
    else if leb age 30000
    then idle
    else failed

abbrev refresh : ℕ → ℕ × PartitionWatermark → ℕ × PartitionWatermark
refresh now (pid, p) = (pid, record p { status = status_of_age (now - p.last_update) })

-- `_update_statuses`
unfoldable pub update_statuses : ℕ → HeuristicAggregator → HeuristicAggregator
update_statuses now a = record a { partitions = map (refresh now) a.partitions }

-- Unlike in the strict branch an idle partition does not count.
abbrev pub counts : PartitionWatermark → Bool
counts p = elim p.status [ active ↦ true | stale ↦ true | idle ↦ false | failed ↦ false ]

unfoldable pub minimum : Mark → List Mark → Mark
minimum m [] = m
minimum m (x ∷ l) = minimum (Mark.min m x) l

unfoldable pub global_from : List Mark → HeuristicAggregator → HeuristicAggregator
unfolding minimum
global_from [] a = a
global_from (x ∷ l) a =
    let W = Mark.max a.W_global_h_prev (minimum x l) in
    record a { W_global_h = W; W_global_h_prev = W }

unfoldable pub active_watermarks : Dict ℕ PartitionWatermark → List Mark
active_watermarks d = map (λ p. p.W_h) (keep counts (Dict.values d))

-- `_compute_global`, its first block
unfoldable pub compute_global : HeuristicAggregator → HeuristicAggregator
unfolding global_from active_watermarks
compute_global a = global_from (active_watermarks a.partitions) a

abbrev pub report : ℕ → String → ℕ → Mark → Option PartitionWatermark → PartitionWatermark
report now worker_id pid W_h none = record {
  partition_id = pid;
  worker_id = worker_id;
  W_h = W_h;
  last_update = now;
  status = active;
}
report now worker_id pid W_h (some p) = record p {
  W_h = Mark.max p.W_h W_h;
  last_update = now;
  worker_id = worker_id;
  status = active;
}

unfoldable pub receive_worker_watermark :
    ℕ → String → ℕ → Mark → HeuristicAggregator → HeuristicAggregator
unfolding update_statuses compute_global
receive_worker_watermark now worker_id pid W_h a =
    let p = report now worker_id pid W_h (Dict.get a.partitions pid) in
    compute_global (
      update_statuses now
        (persist_partition pid (record a { partitions = Dict.put a.partitions pid p })))

unfoldable pub failover : HeuristicAggregator → HeuristicAggregator
failover a = record a { is_active = true }

persist_all : List (ℕ × PartitionWatermark) → HeuristicAggregator → HeuristicAggregator
unfolding persist_partition
persist_all [] a = a
persist_all ((pid, p) ∷ l) a = persist_all l (persist_partition pid a)

abbrev put_meta : Mark → Disk → Disk
put_meta W d = record d { state = some W }

unfoldable pub save_state : HeuristicAggregator → HeuristicAggregator
unfolding persist_all
save_state a =
    let file = record a {
      state_file = some (record { W_global_h = a.W_global_h; partitions = a.partitions });
    } in
    let b = persist_all a.partitions file in
    record b { store = on_disk (put_meta a.W_global_h) b.store }

-- A partition read from the state file was seen just now.
abbrev seen_now : ℕ → ℕ × PartitionWatermark → ℕ × PartitionWatermark
seen_now now (pid, p) = (pid, record p { partition_id = pid; last_update = now })

abbrev read_file : ℕ → Option StateFile → HeuristicAggregator → Bool × HeuristicAggregator
read_file now none a = (false, a)
read_file now (some f) a = (
  true,
  record a {
    W_global_h = f.W_global_h;
    W_global_h_prev = f.W_global_h;
    partitions = put_partitions (map (seen_now now) f.partitions) a.partitions;
  },
)

unfoldable pub load_state : ℕ → Option StateFile → HeuristicAggregator → Bool × HeuristicAggregator
unfolding put_partitions
load_state now file a = elim a.store [ some d ↦ (true, a) | none ↦ read_file now file a ]
