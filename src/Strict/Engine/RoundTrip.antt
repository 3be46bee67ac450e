-- ===== src/Strict/Engine/RoundTrip.antt =====
-- strict/engine.py: what is read back from checkpoint.json is what the checkpoint had.
use csdlpt.Prelude.{
  ℕ, ◌≡◌, refl, ◌∙◌, ap, arith, ◌||◌, String, none, some, List, [], ◌∷◌, ℤ, pos, int_eq, string_eq,
  elem, keep,
}
use csdlpt.Prelude.Mark.{Mark, neg_inf, at}
use csdlpt.Prelude.Dict
use csdlpt.Prelude.Dict.{Dict, IsDict, get-put}
use csdlpt.Strict.Engine.State.{Engine, WindowState, on_store, delete_seen_id}
use csdlpt.Strict.Engine.Checkpoint.{
  delete_seen, bulk_cleanup, purge_from, purge_seen_ids, purge_cutoff, is_expired, snapshot,
  write_checkpoint, checkpoint, stamp_all, put_windows, load_snapshot,
}

-- What a checkpoint leaves alone, and what a restored engine must have.
abbrev pub SameProgress : Engine → Engine → Type 0
SameProgress e f =
    (f.last_T_commit ≡ e.last_T_commit)
    × (f.local_watermark ≡ e.local_watermark)
    × (f.max_event_time ≡ e.max_event_time)
    × (f.watermark ≡ e.watermark)
    × (f.kafka_committed_offset ≡ e.kafka_committed_offset)

abbrev Unmoved : Engine → Engine → Type 0
Unmoved e f = SameProgress e f × (f.open_windows ≡ e.open_windows)

Unmoved-trans : (e f g : Engine) → Unmoved e f → Unmoved f g → Unmoved e g
Unmoved-trans e f g h k =
    ((k.0.0 ∙ h.0.0, k.0.1 ∙ h.0.1, k.0.2 ∙ h.0.2, k.0.3 ∙ h.0.3, k.0.4 ∙ h.0.4), k.1 ∙ h.1)

delete_seen-Unmoved : (l : List (String × ℤ)) (e : Engine) → Unmoved e (delete_seen l e)
unfolding delete_seen
delete_seen-Unmoved [] e = ((refl, refl, refl, refl, refl), refl)
delete_seen-Unmoved ((id, ts) ∷ l) e = delete_seen-Unmoved l (record e {
  seen_ids = Dict.remove e.seen_ids id;
  store = on_store (delete_seen_id id) e.store;
})

bulk_cleanup-Unmoved : (now : ℕ) (e : Engine) → Unmoved e (bulk_cleanup now e)
unfolding bulk_cleanup
bulk_cleanup-Unmoved now e = ground arith

purge_from-Unmoved : (now : ℕ) (c : Mark) (e : Engine) → Unmoved e (purge_from now c e)
unfolding purge_from
purge_from-Unmoved now neg_inf e = ((refl, refl, refl, refl, refl), refl)
purge_from-Unmoved now (at c) e =
    let f = delete_seen (keep (is_expired (at c)) e.seen_ids) e in
    Unmoved-trans e f (bulk_cleanup now f)
      (delete_seen-Unmoved (keep (is_expired (at c)) e.seen_ids) e) (bulk_cleanup-Unmoved now f)

get-put_windows :
    (l d : Dict ℤ WindowState) (w : ℤ)
    → IsDict l
    → Dict.get (put_windows l d) w ≡ elim (Dict.get l w) [ none ↦ Dict.get d w | some st ↦ some st ]
unfolding put_windows Dict.get
get-put_windows [] d w u = refl
get-put_windows ((v, st) ∷ l) d w u =
    ground (arith, get-put_windows l (Dict.put d v st) w u.1, get-put d v w st, int_eq.beq_iff v w)

has-stamp_all :
    (now : ℕ) (l : List String) (d : Dict String ℤ) (id : String)
    → Dict.has (stamp_all now l d) id ≡ elem id l || Dict.has d id
unfolding stamp_all elem
has-stamp_all now [] d id = refl
has-stamp_all now (x ∷ l) d id =
    ground (arith, has-stamp_all now l (Dict.put d x (pos now)) id, get-put d x id (pos now))

elem-keys : (id : String) (d : Dict String ℤ) → elem id (Dict.keys d) ≡ Dict.has d id
unfolding elem Dict.get
elem-keys id [] = refl
elem-keys id ((k, v) ∷ d) = ground (arith, elem-keys id d)

-- What an engine `g` that was read back has of the engine `e`.
abbrev pub Restored : Engine → ℤ → String → Engine → Type 0
Restored e w id g =
    SameProgress e g
    × (Dict.get g.open_windows w ≡ Dict.get e.open_windows w)
    × (Dict.has g.seen_ids id ≡ Dict.has e.seen_ids id)

load_snapshot-snapshot :
    (e f : Engine) (w : ℤ) (id : String)
    → IsDict e.open_windows
    → f.open_windows ≡ []
    → f.seen_ids ≡ []
    → Restored e w id (load_snapshot (some (snapshot e)) f)
unfolding load_snapshot
load_snapshot-snapshot e f w id u h k = (
  (refl, refl, refl, refl, refl),
  rw h (unfold Dict.get in ground (arith, get-put_windows e.open_windows [] w u)),
  rw k (
      unfold Dict.get in
      ground (
        arith,
        has-stamp_all e.last_checkpoint_time (Dict.keys e.seen_ids) [] id,
        elem-keys id e.seen_ids,
      )),
)

Restored-after :
    (e p g : Engine) (w : ℤ) (id : String)
    → Unmoved e p
    → Restored p w id g
    → SameProgress e g
      × (Dict.get g.open_windows w ≡ Dict.get e.open_windows w)
      × (Dict.has g.seen_ids id ≡ Dict.has p.seen_ids id)
Restored-after e p g w id m r = (
  (r.0.0 ∙ m.0.0, r.0.1 ∙ m.0.1, r.0.2 ∙ m.0.2, r.0.3 ∙ m.0.3, r.0.4 ∙ m.0.4),
  r.1 ∙ ap (λ (d : Dict ℤ WindowState). Dict.get d w) m.1,
  r.2,
)

-- An engine with no open window and no seen id that the checkpoint file of another is read into has
-- its watermarks and its offset, each of its open windows with its counts and no other one, and knows
-- exactly the event ids that it knew after the checkpoint's purge.
load_snapshot-checkpoint :
    (now : ℕ) (e f : Engine) (w : ℤ) (id : String)
    → IsDict e.open_windows
    → f.open_windows ≡ []
    → f.seen_ids ≡ []
    → let c = checkpoint now e in
      let g = load_snapshot c.checkpoint_file f in
      SameProgress e g
      × (Dict.get g.open_windows w ≡ Dict.get e.open_windows w)
      × (Dict.has g.seen_ids id ≡ Dict.has c.seen_ids id)
unfolding checkpoint write_checkpoint purge_seen_ids
load_snapshot-checkpoint now e f w id u h k =
    let p = purge_from now (purge_cutoff e) e in
    let m = purge_from-Unmoved now (purge_cutoff e) e in
    Restored-after e p (load_snapshot (some (snapshot p)) f) w id m
      (load_snapshot-snapshot p f w id (rw (m.1) u) h k)
