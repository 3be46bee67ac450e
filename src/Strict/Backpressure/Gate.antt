-- ===== src/Strict/Backpressure/Gate.antt =====
-- strict/backpressure.py: the controller, seen from one partition, is a gate that closes at one size and
-- opens below another.
use csdlpt.Prelude.{
  ℕ, ◌≡◌, refl, ◌∙◌, ap, Bool, true, false, not, ◌&&◌, ◌||◌, String, none, List, [], ◌∷◌, nat_eq,
  string_eq, ltb, leb, if◌then◌else◌, arith, elem,
}
use csdlpt.Prelude.Dict
use csdlpt.Prelude.Dict.{Dict}
use csdlpt.Strict.Backpressure.{
  BackpressureController, init, is_paused, sizes_of, note_size, signal_pause, signal_resume,
  report_buffer, decide, pop_all, clear_worker,
}

pub data Call : Type 0 where
  report : ℕ → String → ℕ → ℕ → Call
  clear : String → Call

unfoldable pub call : Call → BackpressureController → BackpressureController
call (report now w pid size) b = (report_buffer now w pid size b).1
call (clear w) b = clear_worker w b

unfoldable pub run : List Call → BackpressureController → BackpressureController
run [] b = b
run (c ∷ cs) b = run cs (call c b)

-- The partition is closed, and the workers that have reported it since they were cleared.
pub record Gate : Type 0 where
  pub closed : Bool
  pub known : String → Bool

abbrev pub open_gate : Gate
open_gate = record { closed = false; known = λ _. false }

-- Whether a gate is closed after a size: an open one closes at `hi`, a closed one stays so down to `lo`.
unfoldable pub closes : ℕ → ℕ → ℕ → Bool → Bool
closes hi lo size false = leb hi size
closes hi lo size true = not (ltb size lo)

module _ (hi lo p : ℕ) where
  abbrev pub watch : Call → Gate → Gate
  watch (report now w pid size) g =
      if nat_eq.beq pid p
      then record {
        closed = closes hi lo size g.closed;
        known = λ v. string_eq.beq w v || g.known v;
      }
      else g
  watch (clear w) g = record {
    closed = not (g.known w) && g.closed;
    known = λ v. not (string_eq.beq w v) && g.known v;
  }

  unfoldable pub watch_all : List Call → Gate → Gate
  watch_all [] g = g
  watch_all (c ∷ cs) g = watch_all cs (watch c g)

  -- The gate shows the partition of the controller.
  unfoldable Shows : BackpressureController → Gate → Type 0
  Shows b g =
      (b.pause_threshold ≡ hi)
      × (b.resume_threshold ≡ lo)
      × (is_paused p b ≡ g.closed)
      × ((v : String) → Dict.has (sizes_of v b) p ≡ g.known v)

get-pop_all :
    {A : Type 0} (l : List ℕ) (d : Dict ℕ A) (p : ℕ)
    → Dict.get (pop_all l d) p ≡ (if elem p l then none else Dict.get d p)
unfolding pop_all elem
get-pop_all [] d p = refl
get-pop_all (i ∷ l) d p = ground (arith, get-pop_all l (Dict.remove d i) p, Dict.get-remove d i p)

elem-keys : {A : Type 0} (d : Dict ℕ A) (p : ℕ) → elem p (Dict.keys d) ≡ Dict.has d p
unfolding elem Dict.get
elem-keys [] p = refl
elem-keys ((i, a) ∷ d) p = ground (arith, elem-keys d p)

-- What the entries of the controller are after each call.
sizes-note :
    (w : String) (pid size : ℕ) (b : BackpressureController) (p : ℕ) (v : String)
    → Dict.has (sizes_of v (note_size w pid size b)) p ≡ (
        if nat_eq.beq pid p
        then string_eq.beq w v || Dict.has (sizes_of v b) p
        else Dict.has (sizes_of v b) p)
unfolding sizes_of note_size
sizes-note w pid size b p v = ground (
  arith,
  string_eq.beq_iff w v,
  Dict.get-put b.buffer_sizes w v (Dict.put (sizes_of w b) pid size),
  Dict.get-put (sizes_of w b) pid p size,
)

sizes-clear :
    (w : String) (b : BackpressureController) (p : ℕ) (v : String)
    → Dict.has (sizes_of v (clear_worker w b)) p
      ≡ (not (string_eq.beq w v) && Dict.has (sizes_of v b) p)
unfolding sizes_of clear_worker Dict.get
sizes-clear w b p v = ground (arith, Dict.get-remove b.buffer_sizes w v)

paused-clear :
    (w : String) (b : BackpressureController) (p : ℕ)
    → is_paused p (clear_worker w b) ≡ (not (Dict.has (sizes_of w b) p) && is_paused p b)
unfolding is_paused clear_worker
paused-clear w b p =
    ground (arith, get-pop_all (Dict.keys (sizes_of w b)) b.paused p, elem-keys (sizes_of w b) p)

sizes-decide :
    (now : ℕ) (w : String) (pid size : ℕ) (b : BackpressureController)
    → (decide now w pid size b).1.buffer_sizes ≡ b.buffer_sizes
unfolding signal_pause signal_resume
sizes-decide now w pid size b = ground arith

paused-decide :
    (now : ℕ) (w : String) (pid size : ℕ) (b : BackpressureController) (p : ℕ)
    → is_paused p (decide now w pid size b).1 ≡ (
        if nat_eq.beq pid p
        then closes b.pause_threshold b.resume_threshold size (is_paused p b)
        else is_paused p b)
unfolding is_paused signal_pause signal_resume closes
paused-decide now w pid size b p = ground (
  arith,
  nat_eq.beq_iff pid p,
  Dict.get-put b.paused pid p true,
  Dict.get-put b.paused pid p false,
)

thresholds-call :
    (c : Call) (b : BackpressureController)
    → ((call c b).pause_threshold ≡ b.pause_threshold)
      × ((call c b).resume_threshold ≡ b.resume_threshold)
unfolding call report_buffer clear_worker signal_pause signal_resume note_size
thresholds-call (report now w pid size) b = ground arith
thresholds-call (clear w) b = (refl, refl)

paused-report :
    (now : ℕ) (w : String) (pid size : ℕ) (b : BackpressureController) (p : ℕ)
    → is_paused p (report_buffer now w pid size b).1 ≡ (
        if nat_eq.beq pid p
        then closes b.pause_threshold b.resume_threshold size (is_paused p b)
        else is_paused p b)
unfolding report_buffer note_size is_paused
paused-report now w pid size b p = paused-decide now w pid size (note_size w pid size b) p

sizes-report :
    (now : ℕ) (w : String) (pid size : ℕ) (b : BackpressureController) (p : ℕ) (v : String)
    → Dict.has (sizes_of v (report_buffer now w pid size b).1) p ≡ (
        if nat_eq.beq pid p
        then string_eq.beq w v || Dict.has (sizes_of v b) p
        else Dict.has (sizes_of v b) p)
unfolding report_buffer sizes_of
sizes-report now w pid size b p v =
    ap (λ d. Dict.has (Dict.get_or (Dict.get d v) []) p)
      (sizes-decide now w pid size (note_size w pid size b))
    ∙ sizes-note w pid size b p v

module _ (hi lo p : ℕ) where
  report-Shows :
      (now : ℕ) (w : String) (pid size : ℕ) (b : BackpressureController) (g : Gate)
      → Shows hi lo p b g
      → Shows hi lo p (report_buffer now w pid size b).1 (watch hi lo p (report now w pid size) g)
  unfolding Shows call
  report-Shows now w pid size b g (h1, h2, h3, h4) = (
    (thresholds-call (report now w pid size) b).0 ∙ h1,
    (thresholds-call (report now w pid size) b).1 ∙ h2,
    ground (arith, h1, h2, h3, paused-report now w pid size b p),
    λ v. ground (arith, h4 v, sizes-report now w pid size b p v),
  )

  clear-Shows :
      (w : String) (b : BackpressureController) (g : Gate)
      → Shows hi lo p b g
      → Shows hi lo p (clear_worker w b) (watch hi lo p (clear w) g)
  unfolding Shows call
  clear-Shows w b g (h1, h2, h3, h4) = (
    (thresholds-call (clear w) b).0 ∙ h1,
    (thresholds-call (clear w) b).1 ∙ h2,
    ground (arith, h3, h4 w, paused-clear w b p),
    λ v. ground (arith, h4 v, sizes-clear w b p v),
  )

  run-Shows :
      (cs : List Call) (b : BackpressureController) (g : Gate)
      → Shows hi lo p b g
      → Shows hi lo p (run cs b) (watch_all hi lo p cs g)
  unfolding run watch_all call
  run-Shows [] b g h = h
  run-Shows (report now w pid size ∷ cs) b g h =
      run-Shows cs _ _ (report-Shows now w pid size b g h)
  run-Shows (clear w ∷ cs) b g h = run-Shows cs _ _ (clear-Shows w b g h)

  -- For each partition, a new controller does what its gate does: after any reports and clearings
  -- the partition is paused exactly if the gate, which sees the sizes of this partition alone, is closed.
  pub run-closed :
      (cs : List Call) → is_paused p (run cs (init hi lo)) ≡ (watch_all hi lo p cs open_gate).closed
  unfolding Shows init is_paused sizes_of Dict.get
  run-closed cs = let h = run-Shows cs (init hi lo) open_gate (refl, refl, refl, λ v. refl) in h.2
