-- ===== src/Strict/Engine/Closing.antt =====
-- strict/engine.py: which windows `_advance_watermark` closes, and with what.
use csdlpt.Prelude.{
  ℕ, ◌≡◌, refl, ◌∙◌, arith, inl, inr, ◌⊎◌, Bool, true, false, pos, ◌+ℤ◌, leb_ℤ, floor_to, ◌&&◌,
  Option, none, some, List, [], ◌∷◌, ℤ, int_eq, elem, eqb_ℤ, eqb_ℤ_iff, if◌then◌else◌, keep,
  Option-cases,
}
use csdlpt.Prelude.Mark.{Mark, neg_inf, at}
use csdlpt.Prelude.Dict
use csdlpt.Prelude.Dict.{Dict, get-put, get-remove}
use csdlpt.Prelude.Sort.{sort, elem-sort}
use csdlpt.Common.Types.{WindowResult}
use csdlpt.Common.Window.{window_start, window_id}
use csdlpt.Strict.Engine.State.{Engine, WindowState}
use csdlpt.Strict.Engine.Close.{
  result_of, close_with, close_window, close_windows, is_due, to_close, advance_watermark,
}

-- What the closed windows say of `w` once a window in the state `o` has been closed.
abbrev pub closing : Engine → ℤ → Option WindowState → Option WindowResult
closing e w none = Dict.get e.closed_windows w
closing e w (some st) = some (result_of e w st)

close_window-open :
    (now : ℕ) (w v : ℤ) (e : Engine)
    → Dict.get (close_window now w e).open_windows v
      ≡ (if eqb_ℤ w v then none else Dict.get e.open_windows v)
unfolding close_window
close_window-open now w v e = ground (arith, get-remove e.open_windows w v, eqb_ℤ_iff w v)

close_window-closed :
    (now : ℕ) (w v : ℤ) (e : Engine)
    → Dict.get (close_window now w e).closed_windows v
      ≡ (if eqb_ℤ w v then closing e v (Dict.get e.open_windows v) else Dict.get e.closed_windows v)
unfolding close_window
close_window-closed now w v e = elim (Option-cases (Dict.get e.open_windows w)) [
  | inl gone ↦ rw (gone, close_window) (ground (arith, eqb_ℤ_iff w v))
  | inr (st, here) ↦
      rw (here, close_window)
        (unfold close_with in
          ground (arith, get-put e.closed_windows w v (result_of e w st), eqb_ℤ_iff w v))
]

-- What closing leaves alone.
abbrev Static : Engine → Engine → Type 0
Static e f = (f.size ≡ e.size) × (f.partition_id ≡ e.partition_id) × (f.watermark ≡ e.watermark)

close_window-Static : (now : ℕ) (w : ℤ) (e : Engine) → Static e (close_window now w e)
unfolding close_window
close_window-Static now w e = ground arith

close_windows-open :
    (now : ℕ) (l : List ℤ) (v : ℤ) (e : Engine)
    → Dict.get (close_windows now l e).open_windows v
      ≡ (if elem v l then none else Dict.get e.open_windows v)
unfolding close_windows elem
close_windows-open now [] v e = refl
close_windows-open now (w ∷ l) v e =
    ground (arith, close_windows-open now l v (close_window now w e), close_window-open now w v e)

close_windows-closed :
    (now : ℕ) (l : List ℤ) (v : ℤ) (e : Engine)
    → Dict.get (close_windows now l e).closed_windows v
      ≡ (if elem v l then closing e v (Dict.get e.open_windows v) else Dict.get e.closed_windows v)
unfolding close_windows elem
close_windows-closed now [] v e = refl
close_windows-closed now (w ∷ l) v e = ground (
  arith,
  close_windows-closed now l v (close_window now w e),
  close_window-open now w v e,
  close_window-closed now w v e,
  close_window-Static now w e,
)

elem-to_close :
    (p : ℤ → Bool) (v : ℤ) (d : Dict ℤ WindowState)
    → elem v (keep p (Dict.keys d)) ≡ Dict.has d v && p v
unfolding elem keep Dict.get
elem-to_close p v [] = refl
elem-to_close p v ((w, st) ∷ d) = ground (arith, elem-to_close p v d, eqb_ℤ_iff w v)

-- By the code's own test and result.
pub close_due :
    (now : ℕ) (e : Engine) (w : ℤ)
    → let due = is_due e.size e.local_watermark w in
      let f = advance_watermark now e in
      (Dict.get f.open_windows w ≡ (if due then none else Dict.get e.open_windows w))
      × (Dict.get f.closed_windows w
          ≡ (if due then closing e w (Dict.get e.open_windows w) else Dict.get e.closed_windows w))
unfolding advance_watermark to_close
close_due now e w = at_watermark (record e { watermark = e.local_watermark })
  where
    at_watermark :
        (f : Engine)
        → let due = is_due f.size f.watermark w in
          let l = sort (λ x. x) (to_close f) in
          (Dict.get (close_windows now l f).open_windows w
            ≡ (if due then none else Dict.get f.open_windows w))
          × (Dict.get (close_windows now l f).closed_windows w ≡ (
              if due then closing f w (Dict.get f.open_windows w) else Dict.get f.closed_windows w))
    at_watermark f =
        let l = sort (λ x. x) (to_close f) in
        let m =
          elem-sort w (to_close f) ∙ elem-to_close (is_due f.size f.watermark) w f.open_windows in
        (
          ground (arith, close_windows-open now l w f, m),
          ground (arith, close_windows-closed now l w f, m),
        )

-- The watermark has reached the end of the window of this size that starts at `w`.
unfoldable pub has_passed : ℕ → ℤ → Mark → Bool
has_passed size w neg_inf = false
has_passed size w (at t) = leb_ℤ (w +ℤ pos size) t

-- The final result of the window from `w` with these counts.
unfoldable pub final_result : ℕ → ℕ → ℤ → ℕ → ℕ → WindowResult
final_result size partition_id w count status_500 = record {
  window_id = record {
    partition = partition_id;
    start = floor_to size w;
    stop = floor_to size w +ℤ pos size;
  };
  partition_id = partition_id;
  window_start = w;
  window_end = w +ℤ pos size;
  count = count;
  status_500 = status_500;
  is_speculative = false;
  version = 1;
}

is_due-passed : (size : ℕ) (w : ℤ) (m : Mark) → is_due size m w ≡ has_passed size w m
unfolding has_passed
is_due-passed size w neg_inf = refl
is_due-passed size w (at t) = refl

-- `_advance_watermark` closes each open window whose end is at or behind the local watermark: it is open
-- no more, and its closed result has its bounds, its counts, version 1 and is not speculative.
pub advance_watermark-closes :
    (now : ℕ) (e : Engine) (w : ℤ) (st : WindowState)
    → has_passed e.size w e.local_watermark ≡ true
    → Dict.get e.open_windows w ≡ some st
    → (Dict.get (advance_watermark now e).open_windows w ≡ none)
      × (Dict.get (advance_watermark now e).closed_windows w
          ≡ some (final_result e.size e.partition_id w st.count st.status_500))
unfolding final_result
advance_watermark-closes now e w st h g =
    let due : is_due e.size e.local_watermark w ≡ true =
      is_due-passed e.size w e.local_watermark ∙ h in
    let both = close_due now e w in
    (both.0 ∙ rw due refl, both.1 ∙ rw (due, g) (unfold window_id window_start in refl))

-- `_advance_watermark` leaves a window whose end is ahead of the local watermark, or that is not open,
-- as it was: open with its counts, closed with its result, or neither.
pub advance_watermark_keeps :
    (now : ℕ) (e : Engine) (w : ℤ)
    → (has_passed e.size w e.local_watermark ≡ false) ⊎ (Dict.get e.open_windows w ≡ none)
    → (Dict.get (advance_watermark now e).open_windows w ≡ Dict.get e.open_windows w)
      × (Dict.get (advance_watermark now e).closed_windows w ≡ Dict.get e.closed_windows w)
advance_watermark_keeps now e w (inl h) =
    let due : is_due e.size e.local_watermark w ≡ false =
      is_due-passed e.size w e.local_watermark ∙ h in
    let both = close_due now e w in (both.0 ∙ rw due refl, both.1 ∙ rw due refl)
advance_watermark_keeps now e w (inr g) =
    let both = close_due now e w in (both.0 ∙ ground (arith, g), both.1 ∙ ground (arith, g))
