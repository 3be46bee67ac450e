-- ===== src/Strict/Output/Answers.antt =====
-- strict/output_manager.py: what `emit` answers, and what a refusal leaves alone.
use csdlpt.Prelude.{
  ℕ, ◌≡◌, refl, ◌∙◌, ap, arith, inl, inr, Bool, true, false, not, ◌&&◌, ◌∷◌, ◌+◌, Option, none,
  some, elem, if◌then◌else◌, Bool-cases,
}
use csdlpt.Prelude.Dict
use csdlpt.Prelude.Dict.{beq_refl}
use csdlpt.Common.Types.{WindowId, WindowResult, window_eq}
use csdlpt.Strict.Output.Sink
use csdlpt.Strict.Output.{
  OutputManager, Mode, Payload, payload, idempotent, transactional, emit, publish, emit_through,
  transact, finish, deliver, send_all,
}

begin_tx-committed :
    (now : ℕ) (w : WindowId) (s : Sink.Sink) → (Sink.begin_tx now w s).1.committed ≡ s.committed
unfolding Sink.begin_tx Sink.persist_tx_state
begin_tx-committed now w s = ground arith

pre_commit-committed :
    (now tx : ℕ) (w : WindowId) (p : Payload) (s : Sink.Sink)
    → (Sink.pre_commit now tx w p s).committed ≡ s.committed
unfolding Sink.pre_commit Sink.persist_tx_state
pre_commit-committed now tx w p s = ground arith

commit_answer :
    (tx : ℕ) (w : WindowId) (p : Payload) (s : Sink.Sink)
    → (Sink.commit tx w p s).0 ≡ not (Dict.has s.committed w)
unfolding Sink.commit
commit_answer tx w p s = ground arith

finish_answer : (tx : ℕ) (d : Bool × Sink.Sink) → (finish tx d).0 ≡ d.0
unfolding finish
finish_answer tx (true, s) = refl
finish_answer tx (false, s) = refl

deliver_answer :
    (now : ℕ) (r : WindowResult) (m : OutputManager) (d : Bool × Sink.Sink)
    → (deliver now r m d).0 ≡ d.0
unfolding deliver
deliver_answer now r m (true, s) = refl
deliver_answer now r m (false, s) = refl

-- A transaction succeeds if its window was still uncommitted.
transact_answer :
    (now : ℕ) (r : WindowResult) (s : Sink.Sink)
    → (transact now r s).0 ≡ not (Dict.has s.committed r.window_id)
unfolding transact
transact_answer now r s =
    let (tx, s₁) = Sink.begin_tx now r.window_id s in
    let s₂ = Sink.pre_commit now tx r.window_id (payload now r) s₁ in
    finish_answer tx (Sink.commit tx r.window_id (payload now r) s₂)
    ∙ commit_answer tx r.window_id (payload now r) s₂
    ∙ ap (λ (d : Dict.Dict WindowId Payload). not (Dict.has d r.window_id))
        (pre_commit-committed now tx r.window_id (payload now r) s₁
          ∙ begin_tx-committed now r.window_id s)

-- Whether a window that was not emitted before is accepted: in the transactional mode the sink must
-- not have committed it.
abbrev pub accepts : Mode → Option Sink.Sink → WindowId → Bool
accepts idempotent sink w = true
accepts transactional none w = true
accepts transactional (some s) w = not (Sink.is_committed s w)

-- What a call that answers `a.0` has done.
abbrev pub Effect : ℕ → WindowResult → OutputManager → Bool × OutputManager → Type 0
Effect now r m a =
    (a.1.emitted ≡ (if a.0 then r.window_id ∷ m.emitted else m.emitted))
    × (a.1.sent ≡ (if a.0 then send_all (payload now r) m else m.sent))
    × (a.1.emission_count ≡ (if a.0 then m.emission_count + 1 else m.emission_count))

deliver-Effect :
    (now : ℕ) (r : WindowResult) (m : OutputManager) (d : Bool × Sink.Sink)
    → Effect now r m (deliver now r m d)
unfolding deliver publish send_all
deliver-Effect now r m (true, s) = (refl, refl, refl)
deliver-Effect now r m (false, s) = (refl, refl, refl)

emit_through_answers :
    (now : ℕ) (r : WindowResult) (m : OutputManager) (mode : Mode) (sink : Option Sink.Sink)
    → ((emit_through now r m mode sink).0 ≡ accepts mode sink r.window_id)
      × Effect now r m (emit_through now r m mode sink)
unfolding emit_through publish send_all
emit_through_answers now r m idempotent sink = (refl, (refl, refl, refl))
emit_through_answers now r m transactional none = (refl, (refl, refl, refl))
emit_through_answers now r m transactional (some s) = (
  unfold Sink.is_committed in deliver_answer now r m (transact now r s) ∙ transact_answer now r s,
  deliver-Effect now r m (transact now r s),
)

-- `emit` answers True exactly if the window was not emitted before and, in the transactional mode,
-- the sink has not committed it. Then the window joins the emitted set, is sent to each configured
-- producer and is counted; else the set, what was sent and the count are as they were.
pub emit_answers :
    (now : ℕ) (r : WindowResult) (m : OutputManager)
    → ((emit now r m).0 ≡ not (elem r.window_id m.emitted) && accepts m.mode m.sink r.window_id)
      × Effect now r m (emit now r m)
unfolding emit
emit_answers now r m = elim (Bool-cases (elem r.window_id m.emitted)) [
  | inl old ↦ rw old (refl, (refl, refl, refl))
  | inr new ↦ rw new (emit_through_answers now r m m.mode m.sink)
]
