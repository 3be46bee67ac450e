-- ===== src/Strict/Engine/Checkpoint.antt =====
-- strict/engine.py: `_purge_seen_ids`, `checkpoint`, `_restore_from_store` and the reading part of `restore`.
-- A file that is written by rename is the value that the next read gives back. One reading of the
-- clock, in milliseconds, serves a whole call.
use csdlpt.Prelude.{
  ℕ, ◌-◌, Bool, String, Option, none, some, List, [], ◌∷◌, ℤ, pos, ◌-ℤ◌, int_eq, string_eq, ltb,
  if◌then◌else◌, keep,
}
use csdlpt.Prelude.Mark
use csdlpt.Prelude.Mark.{Mark, at, neg_inf}
use csdlpt.Prelude.Dict
use csdlpt.Prelude.Dict.{Dict}
use csdlpt.Common.Types.{WindowResult, EvictionState}
use csdlpt.Strict.Output.{OutputManager, Saved, save_emitted}
use csdlpt.Strict.Engine.State.{
  Engine, WindowState, Tables, Meta, Snapshot, on_store, delete_seen_id,
}

-- 60 s, the time to live of a seen id.
abbrev pub dedup_ttl : ℤ
dedup_ttl = pos 60000

abbrev pub before : Mark → Mark
before neg_inf = neg_inf
before (at t) = at (t -ℤ dedup_ttl)

-- The cutoff: from the watermark, or from `max_event_time` while there is none. -inf is `return`.
unfoldable pub purge_cutoff : Engine → Mark
purge_cutoff e = elim e.watermark [ neg_inf ↦ before e.max_event_time | at w ↦ at (w -ℤ dedup_ttl) ]

-- `ts < cutoff`
abbrev pub is_expired : Mark → String × ℤ → Bool
is_expired cutoff p = Mark.lt (at p.1) cutoff

unfoldable pub delete_seen : List (String × ℤ) → Engine → Engine
delete_seen [] e = e
delete_seen ((eid, _) ∷ l) e = delete_seen l (record e {
  seen_ids = Dict.remove e.seen_ids eid;
  store = on_store (delete_seen_id eid) e.store;
})

-- The bulk cleanup, at most once in five minutes: the prefix is cleared and written again.
abbrev pub rewrite_seen : Dict String ℤ → Tables → Tables
rewrite_seen seen t = record t { si = seen }

unfoldable pub bulk_cleanup : ℕ → Engine → Engine
bulk_cleanup now e = elim e.store [
  | none ↦ e
  | some t ↦
      if ltb (now - e.last_bulk_cleanup) 300000
      then e
      else record e { last_bulk_cleanup = now; store = some (rewrite_seen e.seen_ids t) }
]

unfoldable pub purge_from : ℕ → Mark → Engine → Engine
unfolding delete_seen bulk_cleanup
purge_from now neg_inf e = e
purge_from now (at c) e = bulk_cleanup now (delete_seen (keep (is_expired (at c)) e.seen_ids) e)

unfoldable pub purge_seen_ids : ℕ → Engine → Engine
unfolding purge_from purge_cutoff
purge_seen_ids now e = purge_from now (purge_cutoff e) e

abbrev pub snapshot : Engine → Snapshot
snapshot e = record {
  last_T_commit = e.last_T_commit;
  local_watermark = e.local_watermark;
  max_event_time = e.max_event_time;
  watermark = e.watermark;
  kafka_committed_offset = e.kafka_committed_offset;
  open_windows = e.open_windows;
  seen_ids = Dict.keys e.seen_ids;
  last_checkpoint_time = e.last_checkpoint_time;
  partition_id = e.partition_id;
}

abbrev pub meta_of : Engine → Meta
meta_of e = record {
  last_T_commit = e.last_T_commit;
  local_watermark = e.local_watermark;
  max_event_time = e.max_event_time;
  watermark = e.watermark;
  last_checkpoint_time = e.last_checkpoint_time;
}

abbrev pub put_meta : Meta → Tables → Tables
put_meta m t = record t { checkpoint = some m }

abbrev pub saved_output : Option OutputManager → Option Saved → Option Saved
saved_output none old = old
saved_output (some m) old = some (save_emitted m)

-- What `_checkpoint_impl` writes.
unfoldable pub write_checkpoint : Engine → Engine
write_checkpoint e = record e {
  checkpoint_file = some (snapshot e);
  store = on_store (put_meta (meta_of e)) e.store;
  emitted_file = saved_output e.output e.emitted_file;
}

unfoldable pub checkpoint : ℕ → Engine → Engine
unfolding purge_seen_ids write_checkpoint
checkpoint now e = write_checkpoint (purge_seen_ids now e)

-- `for eid in seen_ids: self._seen_ids_ttl[eid] = last_checkpoint_time`. The checkpoint's wall time
-- stands in for the event times, which the file does not hold.
unfoldable pub stamp_all : ℕ → List String → Dict String ℤ → Dict String ℤ
stamp_all now [] d = d
stamp_all now (eid ∷ l) d = stamp_all now l (Dict.put d eid (pos now))

unfoldable pub put_windows : List (ℤ × WindowState) → Dict ℤ WindowState → Dict ℤ WindowState
put_windows [] d = d
put_windows ((w, st) ∷ l) d = put_windows l (Dict.put d w st)

-- The lines of `restore` that read checkpoint.json into an engine; its constructor is left out.
unfoldable pub load_snapshot : Option Snapshot → Engine → Engine
unfolding stamp_all put_windows
load_snapshot none e = e
load_snapshot (some s) e = record e {
  last_T_commit = s.last_T_commit;
  local_watermark = s.local_watermark;
  max_event_time = s.max_event_time;
  watermark = s.watermark;
  kafka_committed_offset = s.kafka_committed_offset;
  open_windows = put_windows s.open_windows e.open_windows;
  seen_ids = stamp_all s.last_checkpoint_time s.seen_ids e.seen_ids;
  last_checkpoint_time = s.last_checkpoint_time;
}

put_closed : List (ℤ × (WindowResult × EvictionState)) → Dict ℤ WindowResult → Dict ℤ WindowResult
put_closed [] d = d
put_closed ((w, (r, _)) ∷ l) d = put_closed l (Dict.put d w r)

put_seen : List (String × ℤ) → Dict String ℤ → Dict String ℤ
put_seen [] d = d
put_seen ((eid, ts) ∷ l) d = put_seen l (Dict.put d eid ts)

abbrev pub read_meta : Option Meta → Engine → Engine
read_meta none e = e
read_meta (some m) e = record e {
  last_T_commit = m.last_T_commit;
  local_watermark = m.local_watermark;
  max_event_time = m.max_event_time;
  watermark = m.watermark;
  last_checkpoint_time = m.last_checkpoint_time;
}

-- `_restore_from_store`
unfoldable pub restore_from_store : Tables → Engine → Engine
unfolding put_windows put_closed put_seen
restore_from_store t e = read_meta t.checkpoint (record e {
  open_windows = put_windows t.ow e.open_windows;
  closed_windows = put_closed t.cw e.closed_windows;
  seen_ids = put_seen t.si e.seen_ids;
})
