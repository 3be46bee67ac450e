-- ===== src/Strict/Engine/Purge.antt =====
-- strict/engine.py: which event ids `_purge_seen_ids` forgets, and what it leaves alone.
use csdlpt.Prelude.{
  ℕ, ◌-◌, ◌≡◌, refl, ◌∙◌, arith, false, ◌&&◌, String, none, some, List, [], ◌∷◌, ℤ, int_eq,
  string_eq, if◌then◌else◌, keep, leb,
}
use csdlpt.Prelude.Mark
use csdlpt.Prelude.Mark.{Mark, neg_inf, at}
use csdlpt.Prelude.Dict
use csdlpt.Prelude.Dict.{Dict, IsDict, get-put, get-put_self, get-remove, put-IsDict, beq_refl}
use csdlpt.Prelude.Sort.{sort}
use csdlpt.Strict.Engine.State.{Engine, on_store, delete_seen_id}
use csdlpt.Strict.Engine.Close.{advance_watermark, close_windows, close_window, to_close}
use csdlpt.Strict.Engine.Checkpoint.{
  checkpoint, write_checkpoint, purge_seen_ids, purge_from, purge_cutoff, delete_seen, bulk_cleanup,
  is_expired,
}
use csdlpt.Strict.Engine.Steps.{checkpoint_if_due}

delete_seen-get :
    (l : List (String × ℤ)) (e : Engine) (k : String)
    → Dict.get (delete_seen l e).seen_ids k ≡ (if Dict.has l k then none else Dict.get e.seen_ids k)
unfolding delete_seen Dict.get
delete_seen-get [] e k = refl
delete_seen-get ((j, t) ∷ l) e k = ground (
  arith,
  delete_seen-get l
      (record e {
        seen_ids = Dict.remove e.seen_ids j;
        store = on_store (delete_seen_id j) e.store;
      })
      k,
  get-remove e.seen_ids j k,
)

keep-absent :
    (c : Mark) (d : Dict String ℤ) (k : String)
    → Dict.get d k ≡ none
    → Dict.has (keep (is_expired c) d) k ≡ false
unfolding keep Dict.get
keep-absent c [] k h = refl
keep-absent c ((j, s) ∷ d) k h = ground (arith, keep-absent c d k)

has-expired :
    (c : Mark) (d : Dict String ℤ) (k : String) (t : ℤ)
    → IsDict d
    → Dict.get d k ≡ some t
    → Dict.has (keep (is_expired c) d) k ≡ Mark.lt (at t) c
unfolding keep Dict.get
has-expired c [] k t u h = cc
has-expired c ((j, s) ∷ d) k t u h =
    ground (arith, string_eq.beq_iff j k, has-expired c d k t u.1, keep-absent c d k)

bulk_cleanup-seen : (now : ℕ) (e : Engine) → (bulk_cleanup now e).seen_ids ≡ e.seen_ids
unfolding bulk_cleanup
bulk_cleanup-seen now e = ground arith

-- A purge forgets an id exactly if its event time is behind the cutoff.
pub purge_from-get :
    (now : ℕ) (c : Mark) (e : Engine) (k : String) (t : ℤ)
    → IsDict e.seen_ids
    → Dict.get e.seen_ids k ≡ some t
    → Dict.get (purge_from now c e).seen_ids k ≡ (if Mark.lt (at t) c then none else some t)
unfolding purge_from
purge_from-get now neg_inf e k t u h = h
purge_from-get now (at c) e k t u h = rw bulk_cleanup-seen (
    ground (
      arith,
      delete_seen-get (keep (is_expired (at c)) e.seen_ids) e k,
      has-expired (at c) e.seen_ids k t u h,
    ))

-- What a checkpoint leaves alone, of what `process` reads.
abbrev pub Keeps : Engine → Engine → Type 0
Keeps e f =
    (f.watermark ≡ e.watermark)
    × (f.size ≡ e.size)
    × (f.closed_windows ≡ e.closed_windows)
    × (f.max_queue ≡ e.max_queue)

delete_seen-Keeps : (l : List (String × ℤ)) (e : Engine) → Keeps e (delete_seen l e)
unfolding delete_seen
delete_seen-Keeps [] e = (refl, refl, refl, refl)
delete_seen-Keeps ((k, t) ∷ l) e = delete_seen-Keeps l _

bulk_cleanup-Keeps : (now : ℕ) (e : Engine) → Keeps e (bulk_cleanup now e)
unfolding bulk_cleanup
bulk_cleanup-Keeps now e = ground arith

purge_from-Keeps : (now : ℕ) (c : Mark) (e : Engine) → Keeps e (purge_from now c e)
unfolding purge_from
purge_from-Keeps now neg_inf e = (refl, refl, refl, refl)
purge_from-Keeps now (at c) e =
    let d = delete_seen-Keeps (keep (is_expired (at c)) e.seen_ids) e in
    let b = bulk_cleanup-Keeps now (delete_seen (keep (is_expired (at c)) e.seen_ids) e) in
    (b.0 ∙ d.0, b.1 ∙ d.1, b.2 ∙ d.2, b.3 ∙ d.3)

pub checkpoint_if_due-Keeps : (now : ℕ) (e : Engine) → Keeps e (checkpoint_if_due now e)
unfolding checkpoint_if_due checkpoint write_checkpoint purge_seen_ids
checkpoint_if_due-Keeps now e = ground (arith, purge_from-Keeps now (purge_cutoff e) e)

pub checkpoint_if_due-get :
    (now : ℕ) (e : Engine) (k : String) (t : ℤ)
    → IsDict e.seen_ids
    → Dict.get e.seen_ids k ≡ some t
    → Dict.get (checkpoint_if_due now e).seen_ids k ≡ (
        if leb 10000 (now - e.last_checkpoint_time) && Mark.lt (at t) (purge_cutoff e)
        then none
        else some t)
unfolding checkpoint_if_due checkpoint write_checkpoint purge_seen_ids
checkpoint_if_due-get now e k t u h = ground (arith, purge_from-get now (purge_cutoff e) e k t u h)

-- Closing windows leaves the seen ids, and all that `Keeps` does not name but the closed windows.
abbrev pub Steady : Engine → Engine → Type 0
Steady e f =
    (f.seen_ids ≡ e.seen_ids)
    × (f.size ≡ e.size)
    × (f.max_event_time ≡ e.max_event_time)
    × (f.watermark ≡ e.watermark)
    × (f.last_checkpoint_time ≡ e.last_checkpoint_time)
    × (f.max_queue ≡ e.max_queue)

close_window-Steady : (now : ℕ) (w : ℤ) (e : Engine) → Steady e (close_window now w e)
unfolding close_window
close_window-Steady now w e = ground arith

close_windows-Steady : (now : ℕ) (l : List ℤ) (e : Engine) → Steady e (close_windows now l e)
unfolding close_windows
close_windows-Steady now [] e = (refl, refl, refl, refl, refl, refl)
close_windows-Steady now (w ∷ l) e =
    ground (arith, close_windows-Steady now l (close_window now w e), close_window-Steady now w e)

pub advance_watermark-Steady :
    (now : ℕ) (e : Engine)
    → Steady (record e { watermark = e.local_watermark }) (advance_watermark now e)
unfolding advance_watermark
advance_watermark-Steady now e =
    close_windows-Steady now (sort (λ w. w) (to_close (record e { watermark = e.local_watermark })))
      (record e { watermark = e.local_watermark })
