-- ===== src/Strict/Coordinator/Persist.antt =====
-- strict/coordinator.py: `__init__`, `_load_from_store`, `save_state`, `load_state`, `checkpoint`,
-- `flush` and `close`. A flush of the store changes no value.
use csdlpt.Prelude.{
  ℕ, Bool, true, false, Option, none, some, List, [], ◌∷◌, ℤ, pos, nat_eq, if◌then◌else◌, map,
}
use csdlpt.Prelude.Mark.{neg_inf}
use csdlpt.Prelude.Dict
use csdlpt.Prelude.Dict.{Dict}
use csdlpt.Strict.Coordinator.State.{
  Coordinator, PartitionInfo, Disk, StateMeta, StateFile, skew_ok, lag_ok, initializing, starting,
  persist_partition,
}

unfoldable pub put_partitions :
    List (ℕ × PartitionInfo) → Dict ℕ PartitionInfo → Dict ℕ PartitionInfo
put_partitions [] d = d
put_partitions ((pid, p) ∷ l) d = put_partitions l (Dict.put d pid p)

abbrev pub read_state : Option StateMeta → Coordinator → Coordinator
read_state none c = c
read_state (some m) c = record c { term = m.term; W_global = m.W_global; W_global_prev = neg_inf }

-- `_load_from_store`
unfoldable pub load_from_store : Coordinator → Coordinator
unfolding put_partitions
load_from_store c =
    read_state c.disk.state (record c { partitions = put_partitions c.disk.part c.partitions })

abbrev blank : ℤ → Bool → Disk → Coordinator
blank delta_base has_store disk = record {
  delta_base = delta_base;
  partitions = [];
  W_global = neg_inf;
  W_global_prev = neg_inf;
  term = 0;
  worker_last_seen = [];
  fencing_tokens = [];
  fencing_violations = 0;
  node_watermarks = [];
  node_skew_max_ms = pos 0;
  watermark_lag = pos 0;
  skew_status = skew_ok;
  lag_status = lag_ok;
  combined_status = initializing;
  combined_diagnosis = starting;
  has_store = has_store;
  disk = disk;
  state_file = none;
}

-- `__init__`, with a `db_path` or without
unfoldable pub init : ℤ → Bool → Disk → Coordinator
unfolding load_from_store
init delta_base has_store disk =
    if has_store then load_from_store (blank delta_base true disk) else blank delta_base false disk

unfoldable pub save_state : Coordinator → Coordinator
save_state c = record c {
  state_file = some (record { term = c.term; W_global = c.W_global; partitions = c.partitions });
}

-- `checkpoint`, and `flush`
unfoldable pub checkpoint : Coordinator → Coordinator
unfolding save_state
checkpoint c = save_state c

unfoldable pub persist_all : List (ℕ × PartitionInfo) → Coordinator → Coordinator
persist_all [] c = c
persist_all ((pid, p) ∷ l) c = persist_all l (persist_partition pid c)

unfoldable pub put_state : Coordinator → Coordinator
put_state c = record c {
  disk = record c.disk { state = some (record { term = c.term; W_global = c.W_global }) };
}

-- The block "RocksDB state persistence", under its test of `_store`.
unfoldable pub persist_state : Coordinator → Coordinator
unfolding persist_all put_state
persist_state c = if c.has_store then put_state (persist_all c.partitions c) else c

-- The store is closed and dropped before the block that would write to it.
unfoldable pub close : Coordinator → Coordinator
unfolding save_state persist_state
close c = persist_state (record (save_state c) { has_store = false })

-- A partition read from the state file was seen just now.
abbrev pub seen_now : ℕ → ℕ × PartitionInfo → ℕ × PartitionInfo
seen_now now (pid, p) = (pid, record p { partition_id = pid; last_update = now })

abbrev pub read_file : ℕ → Option StateFile → Coordinator → Bool × Coordinator
read_file now none c = (false, c)
read_file now (some f) c = (
  true,
  record c {
    term = f.term;
    W_global = f.W_global;
    W_global_prev = neg_inf;
    partitions = put_partitions (map (seen_now now) f.partitions) c.partitions;
  },
)

unfoldable pub load_state : ℕ → Option StateFile → Coordinator → Bool × Coordinator
unfolding put_partitions
load_state now file c = if c.has_store then (true, c) else read_file now file c
