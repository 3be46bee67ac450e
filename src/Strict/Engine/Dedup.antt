-- ===== src/Strict/Engine/Dedup.antt =====
-- strict/engine.py: an event that was counted is not counted again while the watermark moves,
-- although its id is forgotten after a while; and when it is counted again.
use csdlpt.Prelude.{
  ℕ, ◌-◌, ◌≤◌, ◌<◌, ◌≡◌, refl, ◌∙◌, arith, ◌⊎◌, true, false, ◌&&◌, none, some, ℤ, pos, ◌-ℤ◌, ◌<ℤ◌,
  int_eq, string_eq, +ℤ_parts, -ℤ_parts, if◌then◌else◌, leb,
}
use csdlpt.Prelude.Mark
use csdlpt.Prelude.Mark.{Mark, neg_inf, at}
use csdlpt.Prelude.Dict
use csdlpt.Prelude.Dict.{Dict, IsDict, get-put_self, put-IsDict}
use csdlpt.Common.Types.{LogEvent}
use csdlpt.Common.Window.{window_start}
use csdlpt.Common.Window.Floor.{window_start_bounds}
use csdlpt.Strict.Engine.State.{Engine}
use csdlpt.Strict.Engine.Close.{advance_watermark, is_due}
use csdlpt.Strict.Engine.Checkpoint.{purge_cutoff, dedup_ttl}
use csdlpt.Strict.Engine.Steps.{receive, is_late, enter_window, checkpoint_if_due, accept, process}
use csdlpt.Strict.Engine.Closing.{close_due}
use csdlpt.Strict.Engine.Purge.{
  checkpoint_if_due-get, checkpoint_if_due-Keeps, advance_watermark-Steady,
}

-- An event that counts takes the whole path.
process-accept :
    (now : ℕ) (ev : LogEvent) (queue_len : ℕ) (e : Engine)
    → (process now ev queue_len e).0 ≡ true
    → (process now ev queue_len e).1 ≡ accept now ev (receive ev e)
unfolding process
process-accept now ev queue_len e h = ground arith

process_blocked :
    (now : ℕ) (ev : LogEvent) (queue_len : ℕ) (e : Engine)
    → (is_late ev (receive ev e) ≡ true) ⊎ (Dict.has e.seen_ids ev.event_id ≡ true)
    → (process now ev queue_len e).0 ≡ false
unfolding process receive
process_blocked now ev queue_len e h = ground arith

-- The event as it stands in the engine when `process` has closed what is due.
entered : ℕ → LogEvent → Engine → Engine
entered now ev e = advance_watermark now (enter_window ev (receive ev e))

entered-seen :
    (now : ℕ) (ev : LogEvent) (e : Engine)
    → (entered now ev e).seen_ids ≡ Dict.put e.seen_ids ev.event_id ev.event_time
unfolding entered
entered-seen now ev e =
    unfold enter_window receive in (advance_watermark-Steady now (enter_window ev (receive ev e))).0

entered-watermark :
    (now : ℕ) (ev : LogEvent) (e : Engine) → (entered now ev e).watermark ≡ e.local_watermark
unfolding entered
entered-watermark now ev e =
    unfold enter_window receive in (advance_watermark-Steady now (enter_window ev (receive ev e))).3

entered-size : (now : ℕ) (ev : LogEvent) (e : Engine) → (entered now ev e).size ≡ e.size
unfolding entered
entered-size now ev e =
    unfold enter_window receive in (advance_watermark-Steady now (enter_window ev (receive ev e))).1

-- An event time more than a minute behind a watermark lies in a window that is past it.
old_is_late :
    (size : ℕ) (t W : ℤ)
    → 0 < size
    → size ≤ 60000
    → Mark.lt (at t) (at (W -ℤ dedup_ttl)) ≡ true
    → is_due size (at W) (window_start size t) ≡ true
old_is_late size t W p q h = ground (
  arith,
  window_start_bounds size t p,
  -ℤ_parts W dedup_ttl,
  +ℤ_parts (window_start size t) (pos size),
)

-- The id is in the seen ids right after, unless the checkpoint of the same call forgot it.
accepted-seen :
    (now : ℕ) (ev : LogEvent) (e : Engine)
    → IsDict e.seen_ids
    → let f = entered now ev e in
      Dict.get (checkpoint_if_due now f).seen_ids ev.event_id ≡ (
        if leb 10000 (now - f.last_checkpoint_time) && Mark.lt (at ev.event_time) (purge_cutoff f)
        then none
        else some ev.event_time)
accepted-seen now ev e u =
    checkpoint_if_due-get now (entered now ev e) ev.event_id ev.event_time
      (rw entered-seen (put-IsDict e.seen_ids ev.event_id ev.event_time u))
      (rw entered-seen (get-put_self e.seen_ids ev.event_id ev.event_time))

accepted_blocks :
    (now : ℕ) (ev : LogEvent) (e : Engine) (W : ℤ)
    → 0 < e.size
    → e.size ≤ 60000
    → e.local_watermark ≡ at W
    → IsDict e.seen_ids
    → let g = checkpoint_if_due now (entered now ev e) in
      (is_late ev (receive ev g) ≡ true) ⊎ (Dict.has g.seen_ids ev.event_id ≡ true)
unfolding is_late receive purge_cutoff
accepted_blocks now ev e W p q w u = ground (
  arith,
  accepted-seen now ev e u,
  old_is_late e.size ev.event_time W p q,
  entered-watermark now ev e,
  entered-size now ev e,
  checkpoint_if_due-Keeps now (entered now ev e),
)

-- An event counts once. With windows of at most a minute, the time to live of a seen id, and a local
-- watermark that is set, an event that `process` counted is dropped when it comes again at once, also
-- if a checkpoint of the first call forgot its id.
pub process_once :
    (now now' : ℕ) (ev : LogEvent) (queue_len queue_len' : ℕ) (e : Engine) (W : ℤ)
    → 0 < e.size
    → e.size ≤ 60000
    → e.local_watermark ≡ at W
    → IsDict e.seen_ids
    → (process now ev queue_len e).0 ≡ true
    → (process now' ev queue_len' (process now ev queue_len e).1).0 ≡ false
process_once now now' ev queue_len queue_len' e W p q w u counted =
    rw (process-accept now ev queue_len e counted) (
      process_blocked now' ev queue_len' (accept now ev (receive ev e))
        (unfold accept entered in accepted_blocks now ev e W p q w u))

-- With no watermark nothing is closed.
entered-closed :
    (now : ℕ) (ev : LogEvent) (e : Engine) (w : ℤ)
    → e.local_watermark ≡ neg_inf
    → Dict.get (entered now ev e).closed_windows w ≡ Dict.get e.closed_windows w
unfolding entered enter_window receive
entered-closed now ev e w h = ground (arith, (close_due now (enter_window ev (receive ev e)) w).1)

-- Its window is still open for it.
accepted-is_late :
    (now : ℕ) (ev : LogEvent) (e : Engine)
    → e.local_watermark ≡ neg_inf
    → is_late ev (receive ev e) ≡ false
    → is_late ev (receive ev (checkpoint_if_due now (entered now ev e))) ≡ false
unfolding is_late receive
accepted-is_late now ev e w early = ground (
  arith,
  entered-closed now ev e (window_start e.size ev.event_time) w,
  entered-watermark now ev e,
  entered-size now ev e,
  checkpoint_if_due-Keeps now (entered now ev e),
)

process-early :
    (now : ℕ) (ev : LogEvent) (queue_len : ℕ) (e : Engine)
    → (process now ev queue_len e).0 ≡ true
    → is_late ev (receive ev e) ≡ false
unfolding process
process-early now ev queue_len e h = ground arith

process_passes :
    (now : ℕ) (ev : LogEvent) (queue_len : ℕ) (e : Engine)
    → queue_len ≤ e.max_queue
    → is_late ev (receive ev e) ≡ false
    → Dict.has e.seen_ids ev.event_id ≡ false
    → (process now ev queue_len e).0 ≡ true
unfolding process receive
process_passes now ev queue_len e q early new = ground arith

entered-max_event_time :
    (now : ℕ) (ev : LogEvent) (e : Engine)
    → (entered now ev e).max_event_time ≡ Mark.max e.max_event_time (at ev.event_time)
unfolding entered
entered-max_event_time now ev e =
    unfold enter_window receive in (advance_watermark-Steady now (enter_window ev (receive ev e))).2

entered-last_checkpoint :
    (now : ℕ) (ev : LogEvent) (e : Engine)
    → (entered now ev e).last_checkpoint_time ≡ e.last_checkpoint_time
unfolding entered
entered-last_checkpoint now ev e =
    unfold enter_window receive in (advance_watermark-Steady now (enter_window ev (receive ev e))).4

max_of_older : (M t : ℤ) → t <ℤ M -ℤ dedup_ttl → Mark.max (at M) (at t) ≡ at M
unfolding Mark.max
max_of_older M t h = ground (arith, -ℤ_parts M dedup_ttl)

accepted_forgets :
    (now : ℕ) (ev : LogEvent) (e : Engine) (M : ℤ)
    → IsDict e.seen_ids
    → e.local_watermark ≡ neg_inf
    → e.max_event_time ≡ at M
    → ev.event_time <ℤ M -ℤ dedup_ttl
    → 10000 ≤ now - e.last_checkpoint_time
    → Dict.has (checkpoint_if_due now (entered now ev e)).seen_ids ev.event_id ≡ false
unfolding purge_cutoff
accepted_forgets now ev e M u w m old due = ground (
  arith,
  accepted-seen now ev e u,
  entered-watermark now ev e,
  entered-max_event_time now ev e,
  entered-last_checkpoint now ev e,
  max_of_older M ev.event_time old,
)

-- While there is no watermark an event may count twice: if it is more than a minute older than the
-- newest event, and the call that counts it makes a checkpoint, then its id is forgotten at once, its
-- window is open, and the same event is counted again whenever the queue has room.
pub process_twice :
    (now now' : ℕ) (ev : LogEvent) (queue_len queue_len' : ℕ) (e : Engine) (M : ℤ)
    → IsDict e.seen_ids
    → e.local_watermark ≡ neg_inf
    → e.max_event_time ≡ at M
    → ev.event_time <ℤ M -ℤ dedup_ttl
    → 10000 ≤ now - e.last_checkpoint_time
    → queue_len' ≤ (process now ev queue_len e).1.max_queue
    → (process now ev queue_len e).0 ≡ true
    → (process now' ev queue_len' (process now ev queue_len e).1).0 ≡ true
process_twice now now' ev queue_len queue_len' e M u w m old due room counted =
    process_passes now' ev queue_len' (process now ev queue_len e).1 room
      (rw path (accepted-is_late now ev e w (process-early now ev queue_len e counted)))
      (rw path (accepted_forgets now ev e M u w m old due))
  where
    path : (process now ev queue_len e).1 ≡ checkpoint_if_due now (entered now ev e)
    path = process-accept now ev queue_len e counted ∙ (unfold accept entered in refl)
