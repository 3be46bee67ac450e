-- ===== src/Heuristic/Engine/Rising.antt =====
-- heuristic/engine.py: `process` never lowers the local watermark.
use csdlpt.Prelude.{
  Bool, true, false, ℕ, ◌+◌, ◌≡◌, refl, sym, subst, ◌∙◌, arith, inl, inr, List, [], ◌∷◌, ◌++◌, ℤ,
  pos, ◌-ℤ◌, int_eq, string_eq, leb, length, Bool-cases,
}
use csdlpt.Prelude.Sort.{sort}
use csdlpt.Prelude.Mark
use csdlpt.Prelude.Mark.{Mark, at, ◌⊑◌, ⊑_refl, ⊑_trans}
use csdlpt.Prelude.Dict
use csdlpt.Common.Types.{LogEvent}
use csdlpt.Heuristic.Engine.Estimate.{Maps, Settings, Estimate}
use csdlpt.Heuristic.Engine.Replay.{check_exit_replay, take_snapshot}
use csdlpt.Heuristic.Engine.Sampling.{observe, update_L_eff, recover}
use csdlpt.Heuristic.Engine.State.{HeuristicEngine, on_store, persist_seen_id}
use csdlpt.Heuristic.Engine.Close.{
  close_window, close_with, close_each, close_windows, to_close, purge_old_closed_windows,
}
use csdlpt.Heuristic.Engine.Process.{
  purge_seen_ids, drop_late, drop_anomaly, count_event, route, is_future, estimate, settle_modes,
  with_watermark, finish, after_modes, after_estimate, read_metrics, admit, accept, dequeue,
  process, snapshot_if_due,
}
use csdlpt.Heuristic.Engine.Monotone.{IsTimed, Rises, compute-Rises}
use csdlpt.Heuristic.Engine.Keeping.{
  KeepsMark, kept, keeps_trans, observe-KeepsMark, update-KeepsMark, recover-KeepsMark,
  exit-KeepsMark,
}

close_window-est : (now : ℕ) (w : ℤ) (e : HeuristicEngine) → (close_window now w e).est ≡ e.est
unfolding close_window close_with
close_window-est now w e = ground arith

close_each-est : (now : ℕ) (l : List ℤ) (e : HeuristicEngine) → (close_each now l e).est ≡ e.est
unfolding close_each
close_each-est now [] e = refl
close_each-est now (w ∷ l) e =
    close_each-est now l (close_window now w e) ∙ close_window-est now w e

close_windows-est : (now : ℕ) (e : HeuristicEngine) → (close_windows now e).est ≡ e.est
unfolding close_windows
close_windows-est now e = ground (arith, close_each-est now (sort (λ w. w) (to_close e)) e)

route-est : (ev : LogEvent) (t : ℕ) (e : HeuristicEngine) → (route ev t e).est ≡ e.est
unfolding route drop_anomaly drop_late count_event
route-est ev t e = ground arith

purge_seen-est : (now : ℕ) (e : HeuristicEngine) → (purge_seen_ids now e).est ≡ e.est
unfolding purge_seen_ids
purge_seen-est now e = ground arith

purge_old-est : (now : ℕ) (e : HeuristicEngine) → (purge_old_closed_windows now e).est ≡ e.est
unfolding purge_old_closed_windows
purge_old-est now e = ground arith

snapshot-KeepsMark : (now : ℕ) (c : Settings) (e : Estimate) → KeepsMark e (snapshot_if_due now c e)
unfolding take_snapshot
snapshot-KeepsMark now c e = record {
  mark = ground arith;
  start = ground arith;
  updated = ground arith;
}

keeps-IsTimed : (now : ℕ) (e f : Estimate) → KeepsMark e f → IsTimed now e → IsTimed now f
keeps-IsTimed now e f k h = record {
  started_before = rw (k.start) h.started_before;
  updated_before = rw (k.updated) h.updated_before;
}

Rises-KeepsMark : (now : ℕ) (e f g : Estimate) → Rises now e f → KeepsMark f g → Rises now e g
Rises-KeepsMark now e f g r k = record {
  risen = subst (λ w. e.W_h ⊑ w) (sym k.mark) r.risen;
  timed = keeps-IsTimed now f g k r.timed;
}

keeps_Rises : (now : ℕ) (e f g : Estimate) → KeepsMark e f → Rises now f g → Rises now e g
keeps_Rises now e f g k r = record {
  risen = subst (λ w. w ⊑ g.W_h) k.mark r.risen;
  timed = r.timed;
}

still : (now : ℕ) (e : Estimate) → IsTimed now e → Rises now e e
still now e h = record { risen = ⊑_refl e.W_h; timed = h }

with_watermark-Rises :
    (now : ℕ) (c : Settings) (a : Bool × Estimate)
    → IsTimed now a.1
    → Rises now a.1 (with_watermark now c a).1
unfolding with_watermark
with_watermark-Rises now c (true, est) h = still now est h
with_watermark-Rises now c (false, est) h = compute-Rises now c est h

module _ (maps : Maps) where
  estimate-Rises :
      (now : ℕ) (ev : LogEvent) (t : ℕ) (e : HeuristicEngine)
      → IsTimed now e.est
      → Rises now e.est (estimate maps now ev t e).1
  unfolding estimate
  estimate-Rises now ev t e h =
      let c = e.settings in
      let e₁ = record e.est { max_event_time = Mark.max e.est.max_event_time (at ev.event_time) } in
      let e₂ = observe maps now c (pos t -ℤ ev.event_time) t e₁ in
      let a = update_L_eff maps now c e.total_received e₂ in
      let k =
        keeps_trans e.est e₂ a.1
          (keeps_trans e.est e₁ e₂ (record { mark = refl; start = refl; updated = refl })
            (observe-KeepsMark maps now c (pos t -ℤ ev.event_time) t e₁))
          (update-KeepsMark maps now c e.total_received e₂) in
      keeps_Rises now e.est a.1 (with_watermark now c a).1 k
        (with_watermark-Rises now c a (keeps-IsTimed now e.est a.1 k h))

  modes-KeepsMark :
      (now : ℕ) (c : Settings) (e : Estimate) → KeepsMark e (settle_modes maps now c e).1
  unfolding settle_modes
  modes-KeepsMark now c e =
      let f = check_exit_replay now c e in
      keeps_trans e f (recover maps now c f).1 (exit-KeepsMark now c e)
        (recover-KeepsMark maps now c f)

  metrics-KeepsMark : (now : ℕ) (e : Estimate) → KeepsMark e (read_metrics maps now e).1
  unfolding read_metrics
  metrics-KeepsMark now e = record {
    mark = ground arith;
    start = ground arith;
    updated = ground arith;
  }

  finish-KeepsMark :
      (now : ℕ) (ev : LogEvent) (t : ℕ) (e : HeuristicEngine)
      → KeepsMark e.est (finish maps now ev t e).1.est
  unfolding finish
  finish-KeepsMark now ev t e =
      let routed = route ev t e in
      let s = snapshot_if_due now routed.settings routed.est in
      let k =
        keeps_trans routed.est s (read_metrics maps now s).1
          (snapshot-KeepsMark now routed.settings routed.est) (metrics-KeepsMark now s) in
      subst (λ x. KeepsMark x (read_metrics maps now s).1) (route-est ev t e) k

  after_modes-KeepsMark :
      (now : ℕ) (ev : LogEvent) (t : ℕ) (e : HeuristicEngine) (a : Bool × Estimate)
      → KeepsMark a.1 (after_modes maps now ev t e a).1.est
  unfolding after_modes
  after_modes-KeepsMark now ev t e (true, est) = kept
  after_modes-KeepsMark now ev t e (false, est) = finish-KeepsMark now ev t (record e { est = est })

  after_estimate-KeepsMark :
      (now : ℕ) (ev : LogEvent) (t : ℕ) (e : HeuristicEngine) (a : Bool × Estimate)
      → KeepsMark a.1 (after_estimate maps now ev t e a).1.est
  unfolding after_estimate
  after_estimate-KeepsMark now ev t e (true, est) = kept
  after_estimate-KeepsMark now ev t e (false, est) =
      let e₁ = record e { est = est; last_event_time = t } in
      let closed = close_windows now e₁ in
      let a = settle_modes maps now closed.settings closed.est in
      subst (λ x. KeepsMark x (after_modes maps now ev t closed a).1.est) (close_windows-est now e₁)
        (keeps_trans closed.est a.1 (after_modes maps now ev t closed a).1.est
          (modes-KeepsMark now closed.settings closed.est)
          (after_modes-KeepsMark now ev t closed a))

  admit-Rises :
      (now : ℕ) (ev : LogEvent) (t : ℕ) (e : HeuristicEngine)
      → IsTimed now e.est
      → Rises now e.est (admit maps now ev t e).1.est
  unfolding admit
  admit-Rises now ev t e h =
      let a = estimate maps now ev t e in
      Rises-KeepsMark now e.est a.1 (after_estimate maps now ev t e a).1.est
        (estimate-Rises now ev t e h) (after_estimate-KeepsMark now ev t e a)

  accept-Rises :
      (now : ℕ) (ev : LogEvent) (t : ℕ) (e : HeuristicEngine)
      → IsTimed now e.est
      → Rises now e.est (accept maps now ev t e).1.est
  unfolding accept drop_anomaly drop_late
  accept-Rises now ev t e₀ h₀ =
      let e₁ = record e₀ {
        seen_ids = Dict.put e₀.seen_ids ev.event_id t;
        store = on_store (persist_seen_id ev.event_id t) e₀.store;
      } in
      let e₂ = purge_seen_ids now e₁ in
      let e = purge_old_closed_windows now e₂ in
      let same = purge_old-est now e₂ ∙ purge_seen-est now e₁ in
      let h = subst (IsTimed now) (sym same) h₀ in
      elim (Bool-cases (is_future ev t e)) [
        | inl future ↦ rw future (subst (λ x. Rises now e₀.est x) (sym same) (still now e₀.est h₀))
        | inr present ↦
            rw present (
              subst (λ x. Rises now x (admit maps now ev t e).1.est) same
                (admit-Rises now ev t e h))
      ]

  dequeue-Rises :
      (now t : ℕ) (l : List LogEvent) (e : HeuristicEngine)
      → IsTimed now e.est
      → Rises now e.est (dequeue maps now t l e).1.est
  unfolding dequeue
  dequeue-Rises now t [] e h = still now e.est h
  dequeue-Rises now t (ev ∷ rest) e₀ h =
      let e = record e₀ { inbound_queue = rest; total_received = e₀.total_received + 1 } in
      elim (Bool-cases (Dict.has e.seen_ids ev.event_id)) [
        | inl again ↦ rw again (still now e₀.est h)
        | inr new ↦ rw new (accept-Rises now ev t e h)
      ]

  -- While the clock has not been set back behind the start of the engine and the last update of its
  -- watermark, `process` does not lower the local watermark `W_h`, and that stays so of the clock.
  pub process-Rises :
      (now t : ℕ) (ev : LogEvent) (e : HeuristicEngine)
      → IsTimed now e.est
      → Rises now e.est (process maps now t ev e).1.est
  unfolding process
  process-Rises now t ev e h = elim (Bool-cases (leb e.queue_maxsize (length e.inbound_queue))) [
    | inl full ↦ rw full (still now e.est h)
    | inr room ↦ rw room (dequeue-Rises now t (e.inbound_queue ++ ev ∷ []) e h)
  ]
