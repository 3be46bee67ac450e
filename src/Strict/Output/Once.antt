-- ===== src/Strict/Output/Once.antt =====
-- strict/output_manager.py: `emit` sends each window at most once.
use csdlpt.Prelude.{
  ℕ, suc, ◌+◌, ◌≤◌, ◌≡◌, refl, arith, inl, inr, Bool, true, false, ◌&&◌, Option, none, some, List,
  [], ◌∷◌, ◌++◌, elem, if◌then◌else◌, Bool-cases,
}
use csdlpt.Common.Types.{WindowId, WindowResult, window_beq, window_beq_iff, window_eq}
use csdlpt.Strict.Output.Sink
use csdlpt.Strict.Output.{
  OutputManager, Mode, Topic, results, audit, Sent, Payload, payload, idempotent, transactional,
  init, send_all, message, emit, publish, emit_through, transact, deliver,
}

topic_beq : Topic → Topic → Bool
topic_beq results results = true
topic_beq audit audit = true
topic_beq _ _ = false

-- How many messages of the topic carry the window.
unfoldable pub sent_count : Topic → WindowId → List Sent → ℕ
unfolding topic_beq
sent_count t w [] = 0
sent_count t w (s ∷ l) =
    if topic_beq s.topic t && window_beq s.key w then suc (sent_count t w l) else sent_count t w l

-- The producer that the topic needs is configured.
unfoldable pub has_topic : OutputManager → Topic → Bool
has_topic m results = m.has_producer
has_topic m audit = m.has_audit

sent_count-append :
    (t : Topic) (w : WindowId) (xs ys : List Sent)
    → sent_count t w (xs ++ ys) ≡ sent_count t w xs + sent_count t w ys
unfolding sent_count
sent_count-append t w [] ys = omega arith
sent_count-append t w (x ∷ xs) ys = ground (arith, sent_count-append t w xs ys)

abbrev added : Topic → WindowId → WindowId → OutputManager → ℕ
added t w v m = if (has_topic m t && m.takes t m.emission_count) && window_beq v w then 1 else 0

only : Topic → Sent → Bool → List Sent
only t s b = if b then s ∷ [] else []

sent_count-send_all :
    (t : Topic) (w : WindowId) (p : Payload) (m : OutputManager)
    → sent_count t w (send_all p m) ≡ sent_count t w m.sent + added t w p.window_id m
unfolding send_all sent_count has_topic
sent_count-send_all results w p m = ground (
  arith,
  sent_count-append results w m.sent
      (if m.has_producer && m.takes results m.emission_count then message results p ∷ [] else []),
  sent_count-append results w
      (m.sent
        ++ (if m.has_producer && m.takes results m.emission_count
            then message results p ∷ []
            else []))
      (if m.has_audit && m.takes audit m.emission_count then message audit p ∷ [] else []),
)
sent_count-send_all audit w p m = ground (
  arith,
  sent_count-append audit w m.sent
      (if m.has_producer && m.takes results m.emission_count then message results p ∷ [] else []),
  sent_count-append audit w
      (m.sent
        ++ (if m.has_producer && m.takes results m.emission_count
            then message results p ∷ []
            else []))
      (if m.has_audit && m.takes audit m.emission_count then message audit p ∷ [] else []),
)

-- Each window stands in `sent` at most once for a topic that is configured, and not at all unless it is
-- in `emitted`; if the producer of the topic takes every message, exactly once if it is in `emitted`.
pub record SentOnce (m : OutputManager) (t : Topic) (w : WindowId) : Type 0 where
  pub most : sent_count t w m.sent ≤ (if has_topic m t && elem w m.emitted then 1 else 0)
  pub all :
      ((n : ℕ) → m.takes t n ≡ true)
      → sent_count t w m.sent ≡ (if has_topic m t && elem w m.emitted then 1 else 0)

module _ (t : Topic) (w : WindowId) where
  -- One more message than `n`, if the producer is there and takes it, and the window is this one.
  publish_count :
      (now : ℕ) (r : WindowResult) (m : OutputManager)
      → sent_count t w (publish now r m).sent ≡ sent_count t w m.sent + added t w r.window_id m
  unfolding publish
  publish_count now r m = sent_count-send_all t w (payload now r) m

  publish_topic :
      (now : ℕ) (r : WindowResult) (m : OutputManager)
      → has_topic (publish now r m) t ≡ has_topic m t
  unfolding publish has_topic
  publish_topic now r m = elim t [ results ↦ refl | audit ↦ refl ]

  publish_emitted :
      (now : ℕ) (r : WindowResult) (m : OutputManager)
      → elem w (publish now r m).emitted
        ≡ (if window_beq r.window_id w then true else elem w m.emitted)
  unfolding publish elem
  publish_emitted now r m = refl

  publish_takes :
      (now : ℕ) (r : WindowResult) (m : OutputManager) → (publish now r m).takes ≡ m.takes
  unfolding publish
  publish_takes now r m = refl

  publish-SentOnce :
      (now : ℕ) (r : WindowResult) (m : OutputManager)
      → elem r.window_id m.emitted ≡ false
      → SentOnce m t w
      → SentOnce (publish now r m) t w
  unfolding publish
  publish-SentOnce now r m new h = record {
    most =
        rw (publish_count now r m, publish_topic now r m, publish_emitted now r m)
          (ground (arith, h.most, window_beq_iff r.window_id w));
    all = λ k.
        rw (publish_count now r m, publish_topic now r m, publish_emitted now r m)
          (ground (arith, h.all k, k m.emission_count, window_beq_iff r.window_id w));
  }

  deliver-SentOnce :
      (now : ℕ) (r : WindowResult) (m : OutputManager) (d : Bool × Sink.Sink)
      → elem r.window_id m.emitted ≡ false
      → SentOnce m t w
      → SentOnce (deliver now r m d).1 t w
  unfolding deliver has_topic
  deliver-SentOnce now r m (true, s) new h =
      publish-SentOnce now r (record m { sink = some s }) new
        (record { most = h.most; all = h.all })
  deliver-SentOnce now r m (false, s) new h = record { most = h.most; all = h.all }

  emit_through-SentOnce :
      (now : ℕ) (r : WindowResult) (m : OutputManager) (mode : Mode) (sink : Option Sink.Sink)
      → elem r.window_id m.emitted ≡ false
      → SentOnce m t w
      → SentOnce (emit_through now r m mode sink).1 t w
  unfolding emit_through
  emit_through-SentOnce now r m idempotent sink new h = publish-SentOnce now r m new h
  emit_through-SentOnce now r m transactional none new h = publish-SentOnce now r m new h
  emit_through-SentOnce now r m transactional (some s) new h =
      deliver-SentOnce now r m (transact now r s) new h

  emit-SentOnce :
      (now : ℕ) (r : WindowResult) (m : OutputManager)
      → SentOnce m t w
      → SentOnce (emit now r m).1 t w
  unfolding emit
  emit-SentOnce now r m h = elim (Bool-cases (elem r.window_id m.emitted)) [
    | inl old ↦ rw old h
    | inr new ↦ rw new (emit_through-SentOnce now r m m.mode m.sink new h)
  ]

unfoldable pub emit_all : List (ℕ × WindowResult) → OutputManager → OutputManager
emit_all [] m = m
emit_all ((now, r) ∷ l) m = emit_all l (emit now r m).1

emit_all-SentOnce :
    (t : Topic) (w : WindowId) (l : List (ℕ × WindowResult)) (m : OutputManager)
    → SentOnce m t w
    → SentOnce (emit_all l m) t w
unfolding emit_all
emit_all-SentOnce t w [] m h = h
emit_all-SentOnce t w ((now, r) ∷ l) m h =
    emit_all-SentOnce t w l (emit now r m).1 (emit-SentOnce t w now r m h)

init-SentOnce :
    (mode : Mode) (p a : Bool) (takes : Topic → ℕ → Bool) (store : Option Sink.TxTables) (t : Topic)
    (w : WindowId)
    → SentOnce (init mode p a takes store) t w
unfolding init sent_count elem has_topic
init-SentOnce mode p a takes store t w = record { most = ground arith; all = λ h. ground arith }

-- Whatever results are handed to `emit`, repeated ones among them, in either mode, and whichever
-- messages the producers refuse, a new manager has sent each window at most once to each configured
-- topic, and never if it does not count as emitted; if the producer of the topic refuses none, it
-- has sent each window that counts as emitted exactly once.
pub emit_all-at_most_once :
    (l : List (ℕ × WindowResult)) (mode : Mode) (p a : Bool) (takes : Topic → ℕ → Bool)
    (store : Option Sink.TxTables) (t : Topic) (w : WindowId)
    → SentOnce (emit_all l (init mode p a takes store)) t w
emit_all-at_most_once l mode p a takes store t w =
    emit_all-SentOnce t w l (init mode p a takes store) (init-SentOnce mode p a takes store t w)
