-- ===== src/Heuristic/Engine/Restart.antt =====
-- heuristic/engine.py: an engine that is started on what another wrote at a checkpoint.
use csdlpt.Prelude.{
  ℕ, ◌≡◌, refl, ap, ◌∙◌, arith, Option, none, some, [], ◌∷◌, ℤ, int_eq, string_eq, String, Eq,
}
use csdlpt.Prelude.Dict
use csdlpt.Prelude.Dict.{Dict, get-put}
use csdlpt.Sketch.Sliding.{SlidingWindow}
use csdlpt.Heuristic.Engine.Estimate.{Settings}
use csdlpt.Heuristic.Engine.State.{HeuristicEngine, Tables, get_seek_offset}
use csdlpt.Heuristic.Engine.Storage.{
  checkpoint, meta_of, put_entries, restore_from_store, restore_late_events,
  restore_from_sketch_bin, read_meta, persist_late_events, init,
}

abbrev over {ℓ} : {V : Type ℓ} → Option V → Option V → Option V
over none o = o
over (some v) o = some v

over_none {ℓ} : {V : Type ℓ} (o : Option V) → over o none ≡ o
over_none none = refl
over_none (some v) = refl

module _ {ℓ} {K V : Type ℓ} ⦃e : Eq K⦄ where
  get-put_entries :
      (l d : Dict K V) (j : K)
      → Dict.IsDict l
      → Dict.get (put_entries l d) j ≡ over (Dict.get l j) (Dict.get d j)
  unfolding put_entries Dict.get
  get-put_entries [] d j h = refl
  get-put_entries ((k, v) ∷ l) d j h =
      get-put_entries l (Dict.put d k v) j h.1 ∙ ground (arith, e.beq_iff k j, h.0, get-put d k j v)

  get-restored :
      (d : Dict K V) (w : K) → Dict.IsDict d → Dict.get (put_entries d []) w ≡ Dict.get d w
  unfolding Dict.get
  get-restored d w h = get-put_entries d [] w h ∙ over_none (Dict.get d w)

-- The parts that a checkpoint brings over.
pub record IsResumed (e f : HeuristicEngine) : Type 0 where
  pub W_h : f.est.W_h ≡ e.est.W_h
  pub W_global_h : f.est.W_global_h ≡ e.est.W_global_h
  pub max_event_time : f.est.max_event_time ≡ e.est.max_event_time
  pub L_eff : f.est.L_eff ≡ e.est.L_eff
  pub late_events : f.late_events ≡ e.late_events
  pub in_replay_mode : f.est.in_replay_mode ≡ e.est.in_replay_mode

abbrev pub written : HeuristicEngine → Tables → Tables
written e t = persist_late_events e (record t { checkpoint = some (meta_of e) })

module _ (e : HeuristicEngine) (t : Tables) (now : ℕ) (c : Settings)
    (warmup_min_seconds warmup_min_samples : ℕ) (sketch : SlidingWindow) (partition_id : ℕ)
    (worker_id : String) where
  abbrev pub started : Option Tables → HeuristicEngine
  started store =
      init now c warmup_min_seconds warmup_min_samples sketch partition_id worker_id store
        (checkpoint e).sketch_bin

  started-IsResumed : IsResumed e (started (some (written e t)))
  unfolding checkpoint init restore_from_store restore_late_events restore_from_sketch_bin read_meta
  started-IsResumed = record {
    W_h = ground arith;
    W_global_h = ground arith;
    max_event_time = ground arith;
    L_eff = ground arith;
    late_events = ground arith;
    in_replay_mode = ground arith;
  }

  started-open : (started (some (written e t))).open_windows ≡ put_entries t.ow []
  unfolding checkpoint init restore_from_store restore_late_events restore_from_sketch_bin read_meta
  started-open = ground arith

  started-closed : (started (some (written e t))).closed_windows ≡ put_entries t.cw []
  unfolding checkpoint init restore_from_store restore_late_events restore_from_sketch_bin read_meta
  started-closed = ground arith

  started-offset : get_seek_offset (started (some (written e t))) ≡ 1
  unfolding init get_seek_offset
  started-offset = refl

  stored : e.store ≡ some t → (checkpoint e).store ≡ some (written e t)
  unfolding checkpoint
  stored h = rw (h)

  -- An engine that is started, on any settings, on what another with a store wrote at a checkpoint has
  -- the other's local and global watermarks, largest event time, effective lag, late events and replay
  -- mode, and the windows that the store holds; but not its Kafka offset, since it seeks to 1.
  pub checkpoint-init :
      e.store ≡ some t
      → Dict.IsDict t.ow
      → Dict.IsDict t.cw
      → IsResumed e (started (checkpoint e).store)
        × ((w : ℤ) → Dict.get (started (checkpoint e).store).open_windows w ≡ Dict.get t.ow w)
        × ((w : ℤ) → Dict.get (started (checkpoint e).store).closed_windows w ≡ Dict.get t.cw w)
        × (get_seek_offset (started (checkpoint e).store) ≡ 1)
  checkpoint-init h ho hc = rw (stored h) (
    started-IsResumed,
    (λ w. ap (λ d. Dict.get d w) started-open ∙ get-restored t.ow w ho),
    (λ w. ap (λ d. Dict.get d w) started-closed ∙ get-restored t.cw w hc),
    started-offset,
  )
