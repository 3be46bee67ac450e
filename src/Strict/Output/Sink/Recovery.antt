-- ===== src/Strict/Output/Sink/Recovery.antt =====
-- strict/output_manager.py: what `recover` makes of the transactions that a crash left open.
use csdlpt.Prelude.{
  ℕ, ◌≡◌, ◌≢◌, refl, arith, true, Option, none, some, List, [], ◌∷◌, nat_eq, if◌then◌else◌, ◌⊎◌,
  inl, inr, ◌&&◌, Option-cases, ◌==◌,
}
use csdlpt.Prelude.Dict
use csdlpt.Prelude.Dict.{Dict, get-put, get-remove, get-put_self, put-IsDict, IsDict}
use csdlpt.Common.Types.{WindowId, window_eq, window_beq_iff}
use csdlpt.Strict.Output.Result.{Payload}
use csdlpt.Strict.Output.Sink.{
  Sink, PreCommit, InProgress, begun, load_tx_state, settle, resolve, undo, discard, recover,
  is_begun,
}

settle-pre_commits :
    (k : ℕ) (p : PreCommit) (r : ℕ × Sink) (tx : ℕ)
    → Dict.get (settle k p r).1.pre_commits tx
      ≡ (if k == tx then none else Dict.get r.1.pre_commits tx)
unfolding settle
settle-pre_commits k p (n, s) tx = ground (arith, get-remove s.pre_commits k tx)

resolve-pre_commits :
    (l : List (ℕ × PreCommit)) (r : ℕ × Sink) (tx : ℕ)
    → (Dict.has l tx ≡ true) ⊎ (Dict.get r.1.pre_commits tx ≡ none)
    → Dict.get (resolve l r).1.pre_commits tx ≡ none
unfolding resolve Dict.get
resolve-pre_commits [] r tx h = ground arith
resolve-pre_commits ((k, p) ∷ l) r tx h =
    ground (arith, settle-pre_commits k p r tx, resolve-pre_commits l (settle k p r) tx)

-- A committed window keeps its value.
settle-committed :
    (k : ℕ) (p : PreCommit) (r : ℕ × Sink) (w : WindowId) (b : Payload)
    → Dict.get r.1.committed w ≡ some b
    → Dict.get (settle k p r).1.committed w ≡ some b
unfolding settle
settle-committed k p (n, s) w b h =
    ground (arith, get-put s.committed p.window_id w p.body, window_beq_iff p.window_id w)

resolve-committed :
    (l : List (ℕ × PreCommit)) (r : ℕ × Sink) (w : WindowId) (b : Payload)
    → Dict.get r.1.committed w ≡ some b
    → Dict.get (resolve l r).1.committed w ≡ some b
unfolding resolve
resolve-committed [] r w b h = h
resolve-committed ((k, p) ∷ l) r w b h =
    resolve-committed l (settle k p r) w b (settle-committed k p r w b h)

settle-commits :
    (k : ℕ) (p : PreCommit) (r : ℕ × Sink) → Dict.has (settle k p r).1.committed p.window_id ≡ true
unfolding settle
settle-commits k p (n, s) = ground (
  arith,
  get-put s.committed p.window_id p.window_id p.body,
  window_beq_iff p.window_id p.window_id,
)

settle-has :
    (k : ℕ) (p : PreCommit) (r : ℕ × Sink) (w : WindowId)
    → Dict.has r.1.committed w ≡ true
    → Dict.has (settle k p r).1.committed w ≡ true
unfolding settle
settle-has k p (n, s) w h = ground (arith, get-put s.committed p.window_id w p.body)

resolve-has :
    (l : List (ℕ × PreCommit)) (r : ℕ × Sink) (w : WindowId)
    → Dict.has r.1.committed w ≡ true
    → Dict.has (resolve l r).1.committed w ≡ true
unfolding resolve
resolve-has [] r w h = h
resolve-has ((k, p) ∷ l) r w h = resolve-has l (settle k p r) w (settle-has k p r w h)

resolve-commits :
    (l : List (ℕ × PreCommit)) (r : ℕ × Sink) (tx : ℕ) (p : PreCommit)
    → Dict.get l tx ≡ some p
    → Dict.has (resolve l r).1.committed p.window_id ≡ true
unfolding resolve Dict.get
resolve-commits [] r tx p h = cc
resolve-commits ((k, q) ∷ l) r tx p h = ground (
  arith,
  resolve-commits l (settle k q r) tx p,
  resolve-has l (settle k q r) q.window_id,
  settle-commits k q r,
)

discard-committed : (l : List (ℕ × InProgress)) (s : Sink) → (discard l s).committed ≡ s.committed
unfolding discard
discard-committed [] s = refl
discard-committed ((k, i) ∷ l) s = ground (arith, discard-committed l (undo k i s))

undo-pre_commits :
    (k : ℕ) (i : InProgress) (s : Sink) (tx : ℕ)
    → Dict.get s.pre_commits tx ≡ none
    → Dict.get (undo k i s).pre_commits tx ≡ none
unfolding undo
undo-pre_commits k i s tx h = ground (arith, get-remove s.pre_commits k tx)

discard-pre_commits :
    (l : List (ℕ × InProgress)) (s : Sink) (tx : ℕ)
    → Dict.get s.pre_commits tx ≡ none
    → Dict.get (discard l s).pre_commits tx ≡ none
unfolding discard
discard-pre_commits [] s tx h = h
discard-pre_commits ((k, i) ∷ l) s tx h =
    discard-pre_commits l (undo k i s) tx (undo-pre_commits k i s tx h)

undo-in_progress :
    (k : ℕ) (i : InProgress) (s : Sink) (tx : ℕ)
    → Dict.get (undo k i s).in_progress tx
      ≡ (if is_begun i.state && k == tx then none else Dict.get s.in_progress tx)
unfolding undo
undo-in_progress k i s tx = ground (arith, get-remove s.in_progress k tx)

discard-in_progress :
    (l : List (ℕ × InProgress)) (s : Sink) (tx : ℕ) (i : InProgress)
    → Dict.get (discard l s).in_progress tx ≡ some i
    → Dict.get s.in_progress tx ≡ some i
unfolding discard
discard-in_progress [] s tx i h = h
discard-in_progress ((k, j) ∷ l) s tx i h =
    ground (arith, discard-in_progress l (undo k j s) tx i, undo-in_progress k j s tx)

discard-begun :
    (l : List (ℕ × InProgress)) (s : Sink) (tx : ℕ) (i : InProgress)
    → Dict.get l tx ≡ some i
    → i.state ≡ begun
    → Dict.get (discard l s).in_progress tx ≡ none
unfolding discard Dict.get is_begun
discard-begun [] s tx i h e = cc
discard-begun ((k, j) ∷ l) s tx i h e =
    elim (Option-cases (Dict.get (discard l (undo k j s)).in_progress tx)) [
      | inl gone ↦ gone
      | inr (x, left) ↦ ground (
        arith,
        discard-in_progress l (undo k j s) tx x,
        undo-in_progress k j s tx,
        discard-begun l (undo k j s) tx i,
      )
    ]

pub recover_resolves :
    (s : Sink)
    → let t = (recover s).1 in
      ((tx : ℕ) → Dict.get t.pre_commits tx ≡ none)
      × ((tx : ℕ) (i : InProgress) → Dict.get t.in_progress tx ≡ some i → i.state ≢ begun)
      × ((tx : ℕ) (p : PreCommit)
          → Dict.get (load_tx_state s).pre_commits tx ≡ some p
          → Dict.has t.committed p.window_id ≡ true)
      × ((w : WindowId) (b : Payload)
          → Dict.get s.committed w ≡ some b
          → Dict.get t.committed w ≡ some b)
unfolding recover
recover_resolves s = (
  λ tx.
      discard-pre_commits open_txs after tx
        (resolve-pre_commits loaded.pre_commits (0, loaded) tx (absent tx)),
  λ tx i h e.
      ground
        (arith, discard-begun open_txs after tx i (discard-in_progress open_txs after tx i h) e),
  λ tx p h.
      rw (discard-committed open_txs after) (resolve-commits loaded.pre_commits (0, loaded) tx p h),
  λ w b h.
      rw (discard-committed open_txs after) (
        resolve-committed loaded.pre_commits (0, loaded) w b
          (unfold load_tx_state in ground arith)),
)
  where
    loaded : Sink
    loaded = load_tx_state s

    after : Sink
    after = (resolve loaded.pre_commits (0, loaded)).1

    open_txs : List (ℕ × InProgress)
    open_txs = after.in_progress

    absent :
        (tx : ℕ) → (Dict.has loaded.pre_commits tx ≡ true) ⊎ (Dict.get loaded.pre_commits tx ≡ none)
    absent tx = ground arith

-- Not in the state BEGIN, if it is there.
abbrev pub IsResolved : Option InProgress → Type 0
IsResolved none = Unit {0}
IsResolved (some i) = i.state ≢ begun

-- After `recover` no transaction is pre-committed, and none is open in the state BEGIN.
pub recover-IsResolved :
    (s : Sink) (tx : ℕ)
    → (Dict.get (recover s).1.pre_commits tx ≡ none)
      × IsResolved (Dict.get (recover s).1.in_progress tx)
recover-IsResolved s tx =
    ((recover_resolves s).0 tx, resolved (Dict.get (recover s).1.in_progress tx) refl)
  where
    resolved : (o : Option InProgress) → Dict.get (recover s).1.in_progress tx ≡ o → IsResolved o
    resolved none e = tt
    resolved (some i) e = (recover_resolves s).1 tx i e

-- What was committed before keeps its data.
pub Keeps : Sink → Sink → Type 0
Keeps s t =
    (w : WindowId) (b : Payload) → Dict.get s.committed w ≡ some b → Dict.get t.committed w ≡ some b

-- `recover` commits the window of each transaction that was pre-committed, in memory or in the store,
-- whatever was committed before, and what was committed before keeps its data.
pub recover_commits :
    (s : Sink) (tx : ℕ) (p : PreCommit)
    → Dict.get (load_tx_state s).pre_commits tx ≡ some p
    → (Dict.has (recover s).1.committed p.window_id ≡ true) × Keeps s (recover s).1
unfolding Keeps
recover_commits s tx p h = ((recover_resolves s).2 tx p h, (recover_resolves s).3)
