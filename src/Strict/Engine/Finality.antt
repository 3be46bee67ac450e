-- ===== src/Strict/Engine/Finality.antt =====
-- strict/engine.py: the result of a closed window never changes.
use csdlpt.Prelude.{
  ℕ, ◌-◌, ◌≡◌, refl, arith, inl, inr, some, List, [], ◌∷◌, ℤ, int_eq, string_eq, eqb_ℤ_iff,
  Bool-cases, ltb, leb,
}
use csdlpt.Prelude.Mark
use csdlpt.Prelude.Mark.{at}
use csdlpt.Prelude.Dict
use csdlpt.Prelude.Dict.{Dict, get-put}
use csdlpt.Prelude.Sort.{sort}
use csdlpt.Common.Types.{LogEvent, PunctuationToken, WindowResult}
use csdlpt.Strict.Engine.State.{Engine, WindowState}
use csdlpt.Strict.Engine.Close.{flush_with, flush_windows, flush, advance_watermark, result_of}
use csdlpt.Strict.Engine.Checkpoint.{checkpoint}
use csdlpt.Strict.Engine.Steps.{
  on_punctuation, raise_watermark, receive, is_late, enter_window, checkpoint_if_due, accept,
  process,
}
use csdlpt.Common.Books.{Books-take, Books-sort}
use csdlpt.Strict.Engine.Accounting.{Books, IsSound, checkpoint-SameBooks, entered-IsSound}
use csdlpt.Strict.Engine.Closing.{close_due}
use csdlpt.Strict.Engine.Run.{
  Call, processes, punctuates, raises, checkpoints, flushes, apply_call, apply_call-IsSound, run,
}

-- The window `w` is closed with the result `r`.
abbrev pub IsClosed : ℤ → WindowResult → Engine → Type 0
IsClosed w r e = Dict.get e.closed_windows w ≡ some r

advance_watermark-IsClosed :
    (now : ℕ) (w : ℤ) (r : WindowResult) (e : Engine) {n : ℕ}
    → Books e.open_windows e.closed_windows n
    → IsClosed w r e
    → IsClosed w r (advance_watermark now e)
advance_watermark-IsClosed now w r e b h = ground (arith, (close_due now e w).1, b.apart w)

flush_windows-IsClosed :
    (now : ℕ) (l : Dict ℤ WindowState) (w : ℤ) (r : WindowResult) (e : Engine) {n : ℕ}
    → Books l e.closed_windows n
    → IsClosed w r e
    → IsClosed w r (flush_windows now l e)
unfolding flush_windows
flush_windows-IsClosed now [] w r e b h = h
flush_windows-IsClosed now ((v, st) ∷ l) w r e b h =
    flush_windows-IsClosed now l w r (flush_with now v st e)
      (unfold flush_with in Books-take v st _ refl b)
      (unfold flush_with Dict.get in
        ground (arith, b.apart w, eqb_ℤ_iff v w, get-put e.closed_windows v w (result_of e v st)))

checkpoint-IsClosed :
    (now : ℕ) (w : ℤ) (r : WindowResult) (e : Engine)
    → IsClosed w r e
    → IsClosed w r (checkpoint now e)
checkpoint-IsClosed now w r e h = rw (checkpoint-SameBooks now e).1 h

checkpoint_if_due-IsClosed :
    (now : ℕ) (w : ℤ) (r : WindowResult) (e : Engine)
    → IsClosed w r e
    → IsClosed w r (checkpoint_if_due now e)
unfolding checkpoint_if_due
checkpoint_if_due-IsClosed now w r e h =
    elim (Bool-cases (leb 10000 (now - e.last_checkpoint_time))) [
      | inl due ↦ rw due (checkpoint-IsClosed now w r e h)
      | inr early ↦ rw early h
    ]

process-IsClosed :
    (now : ℕ) (ev : LogEvent) (queue_len : ℕ) (w : ℤ) (r : WindowResult) (e : Engine)
    → IsSound e
    → IsClosed w r e
    → IsClosed w r (process now ev queue_len e).1
unfolding process receive
process-IsClosed now ev queue_len w r e s h = elim (Bool-cases (ltb e.max_queue queue_len)) [
  | inl full ↦ rw full h
  | inr room ↦ elim (Bool-cases (is_late ev (receive ev e))) [
    | inl late ↦ rw (room, late) h
    | inr early ↦ elim (Bool-cases (Dict.has e.seen_ids ev.event_id)) [
      | inl again ↦ rw (room, early, again) h
      | inr new ↦
          rw (room, early, new)
            (unfold accept in
              checkpoint_if_due-IsClosed now w r _ (
                advance_watermark-IsClosed now w r (enter_window ev (receive ev e))
                  (entered-IsSound ev e early s).books (unfold enter_window in h)))
    ]
  ]
]

on_punctuation-IsClosed :
    (now : ℕ) (token : PunctuationToken) (w : ℤ) (r : WindowResult) (e : Engine)
    → IsSound e
    → IsClosed w r e
    → IsClosed w r (on_punctuation now token e)
unfolding on_punctuation
on_punctuation-IsClosed now token w r e s h =
    elim (Bool-cases (Mark.lt e.last_T_commit (at token.T_commit))) [
      | inl later ↦ rw later (advance_watermark-IsClosed now w r _ s.books h)
      | inr stale ↦ rw stale h
    ]

apply_call-IsClosed :
    (now : ℕ) (c : Call) (w : ℤ) (r : WindowResult) (e : Engine)
    → IsSound e
    → IsClosed w r e
    → IsClosed w r (apply_call now c e)
unfolding apply_call
apply_call-IsClosed now (processes ev q) w r e s h = process-IsClosed now ev q w r e s h
apply_call-IsClosed now (punctuates token) w r e s h = on_punctuation-IsClosed now token w r e s h
apply_call-IsClosed now (raises W term) w r e s h = unfold raise_watermark in h
apply_call-IsClosed now checkpoints w r e s h = checkpoint-IsClosed now w r e h
apply_call-IsClosed now flushes w r e s h =
    unfold flush in
    flush_windows-IsClosed now (sort (λ p. p.0) e.open_windows) w r e (Books-sort s.books) h

-- A closed window is final: in an engine whose books balance, whatever events, punctuations,
-- watermarks, checkpoints and flushes follow, its result stays the one it was closed with.
pub run-IsClosed :
    (l : List (ℕ × Call)) (w : ℤ) (r : WindowResult) (e : Engine)
    → IsSound e
    → IsClosed w r e
    → IsClosed w r (run l e)
unfolding run
run-IsClosed [] w r e s h = h
run-IsClosed ((now, c) ∷ l) w r e s h =
    run-IsClosed l w r (apply_call now c e) (apply_call-IsSound now c e s)
      (apply_call-IsClosed now c w r e s h)
