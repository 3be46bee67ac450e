-- ===== src/Heuristic/Dlq/Redelivery.antt =====
-- heuristic/dlq.py: a correction counts once, however often it is delivered.
use csdlpt.Prelude.{
  ℕ, ◌≡◌, refl, arith, ◌⊎◌, inl, inr, Bool, true, false, String, Option, none, some, List, [], ◌∷◌,
  string_eq, elem, if◌then◌else◌,
}
use csdlpt.Prelude.Dict
use csdlpt.Prelude.Dict.{Dict, get-put}
use csdlpt.Heuristic.Dlq.Corrections.{CorrectionMessage}
use csdlpt.Heuristic.Dlq.Protocol.{
  Pattern, CorrectionProtocol, Result, load_ids, add_id, init, in_store, put_id, is_duplicate,
  apply_correction,
}

-- A protocol and the result that it corrects, under the deliveries in their order.
unfoldable pub apply_all :
    List (ℕ × CorrectionMessage) → CorrectionProtocol × Result → CorrectionProtocol × Result
apply_all [] s = s
apply_all ((now, c) ∷ l) s = apply_all l (apply_correction now c s)

is_duplicate-knows :
    (now : ℕ) (id other : String) (p : CorrectionProtocol)
    → ((elem id p.processed ≡ true) ⊎ (string_eq.beq other id ≡ true))
    → elem id (is_duplicate now other p).1.processed ≡ true
unfolding is_duplicate elem
is_duplicate-knows now id other p h =
    ground (arith, string_eq.beq_iff other id, string_eq.beq_iff id other)

apply_correction-protocol :
    (now : ℕ) (c : CorrectionMessage) (s : CorrectionProtocol × Result)
    → (apply_correction now c s).0 ≡ (is_duplicate now c.correction_id s.0).1
unfolding apply_correction
apply_correction-protocol now c (p, r) = refl

apply_all-knows :
    (l : List (ℕ × CorrectionMessage)) (id : String) (s : CorrectionProtocol × Result)
    → elem id s.0.processed ≡ true
    → elem id (apply_all l s).0.processed ≡ true
unfolding apply_all
apply_all-knows [] id s h = h
apply_all-knows ((now, c) ∷ l) id s h =
    apply_all-knows l id (apply_correction now c s) (
      rw (apply_correction-protocol now c s)
        (is_duplicate-knows now id c.correction_id s.0 (inl h)))

apply_correction_known :
    (now : ℕ) (c : CorrectionMessage) (s : CorrectionProtocol × Result)
    → elem c.correction_id s.0.processed ≡ true
    → apply_correction now c s ≡ s
unfolding apply_correction is_duplicate
apply_correction_known now c (p, r) h = rw h refl

-- A correction that was delivered once, and whatever was delivered in between, changes neither the
-- result nor the protocol when a message with its id is delivered again.
pub apply_all_redelivered :
    (now now' : ℕ) (c again : CorrectionMessage) (l : List (ℕ × CorrectionMessage))
    (p : CorrectionProtocol) (r : Result)
    → again.correction_id ≡ c.correction_id
    → apply_correction now' again (apply_all l (apply_correction now c (p, r)))
      ≡ apply_all l (apply_correction now c (p, r))
apply_all_redelivered now now' c again l p r same =
    apply_correction_known now' again (apply_all l (apply_correction now c (p, r))) (
      rw same (
        apply_all-knows l c.correction_id (apply_correction now c (p, r)) (
          rw (apply_correction-protocol now c (p, r)) (
            is_duplicate-knows now c.correction_id c.correction_id p
              (inr ((string_eq.beq_iff c.correction_id c.correction_id).1 refl))))))

-- The protocol has a store, and it holds every id that was processed.
abbrev Stored : CorrectionProtocol → Type 0
Stored p = (id : String) → elem id p.processed ≡ true → in_store id p.store ≡ true

put_id-in :
    (now : ℕ) (id other : String) (d : Dict String ℕ)
    → in_store id (put_id now other (some d))
      ≡ (if string_eq.beq other id then true else Dict.has d id)
put_id-in now id other d = ground (arith, get-put d other id now)

has_store : Option (Dict String ℕ) → Bool
has_store none = false
has_store (some d) = true

put_id-kept :
    (now : ℕ) (id other : String) (o : Option (Dict String ℕ))
    → has_store o ≡ true
    → ((in_store id o ≡ true) ⊎ (string_eq.beq other id ≡ true))
    → (in_store id (put_id now other o) ≡ true) × (has_store (put_id now other o) ≡ true)
unfolding has_store
put_id-kept now id other none h k = ground arith
put_id-kept now id other (some d) h k = ground (arith, put_id-in now id other d)

-- What a delivery does to the store.
is_duplicate-in :
    (now : ℕ) (id other : String) (p : CorrectionProtocol)
    → Stored p
    → has_store p.store ≡ true
    → ((in_store id p.store ≡ true) ⊎ (string_eq.beq other id ≡ true))
    → (in_store id (is_duplicate now other p).1.store ≡ true)
      × (has_store (is_duplicate now other p).1.store ≡ true)
unfolding is_duplicate
is_duplicate-in now id other p s h k =
    ground (arith, s other, string_eq.beq_iff other id, put_id-kept now id other p.store h)

is_duplicate-Stored :
    (now : ℕ) (other : String) (p : CorrectionProtocol)
    → Stored p
    → has_store p.store ≡ true
    → Stored (is_duplicate now other p).1
unfolding is_duplicate elem
is_duplicate-Stored now other p s h id k =
    ground (arith, s id, s other, string_eq.beq_iff other id, put_id-kept now id other p.store h)

elem-load_ids :
    (id : String) (l done : List String)
    → elem id (load_ids l done) ≡ true
    → (elem id l ≡ true) ⊎ (elem id done ≡ true)
unfolding load_ids elem
elem-load_ids id [] done h = inr h
elem-load_ids id (x ∷ l) done h = ground (
  arith,
  elem-load_ids id l (if string_eq.beq x "" then done else add_id x done),
  string_eq.beq_iff x id,
)

elem-keys : (id : String) (d : Dict String ℕ) → elem id (Dict.keys d) ≡ true → Dict.has d id ≡ true
unfolding elem Dict.get
elem-keys id [] h = h
elem-keys id ((k, v) ∷ d) h = ground (arith, elem-keys id d)

init-Stored : (pattern : Pattern) (d : Dict String ℕ) → Stored (init pattern (some d))
unfolding init elem
init-Stored pattern d id h = ground (arith, elem-load_ids id (Dict.keys d) [] h, elem-keys id d)

apply_all-in :
    (l : List (ℕ × CorrectionMessage)) (id : String) (s : CorrectionProtocol × Result)
    → Stored s.0
    → has_store s.0.store ≡ true
    → in_store id s.0.store ≡ true
    → in_store id (apply_all l s).0.store ≡ true
unfolding apply_all
apply_all-in [] id s st h k = k
apply_all-in ((now, c) ∷ l) id s st h k =
    let e = apply_correction-protocol now c s in
    let kept = is_duplicate-in now id c.correction_id s.0 st h (inl k) in
    apply_all-in l id (apply_correction now c s)
      (rw e (is_duplicate-Stored now c.correction_id s.0 st h)) (rw e kept.1) (rw e kept.0)

apply_correction_stored :
    (now : ℕ) (c : CorrectionMessage) (pattern : Pattern) (store : Option (Dict String ℕ))
    (r : Result)
    → in_store c.correction_id store ≡ true
    → (apply_correction now c (init pattern store, r)).1 ≡ r
unfolding apply_correction is_duplicate init
apply_correction_stored now c pattern store r h = ground arith

-- This survives a restart: a protocol that was opened on a store, and is opened again on what that
-- store holds after a correction and any further ones, leaves every result as it is when a message
-- with the id of the first correction is delivered.
pub apply_all_restarted :
    (now now' : ℕ) (c again : CorrectionMessage) (l : List (ℕ × CorrectionMessage))
    (pattern pattern' : Pattern) (d : Dict String ℕ) (r r' : Result)
    → again.correction_id ≡ c.correction_id
    → let s = apply_all l (apply_correction now c (init pattern (some d), r)) in
      (apply_correction now' again (init pattern' s.0.store, r')).1 ≡ r'
apply_all_restarted now now' c again l pattern pattern' d r r' same =
    apply_correction_stored now' again pattern' _ r' (
      rw same (
        apply_all-in l c.correction_id first
          (rw e (is_duplicate-Stored now c.correction_id p s refl_store)) (rw e kept.1)
          (rw e kept.0)))
  where
    p : CorrectionProtocol
    p = init pattern (some d)

    first : CorrectionProtocol × Result
    first = apply_correction now c (p, r)

    e : first.0 ≡ (is_duplicate now c.correction_id p).1
    e = apply_correction-protocol now c (p, r)

    s : Stored p
    s = init-Stored pattern d

    refl_store : has_store p.store ≡ true
    refl_store = unfold init has_store in refl

    kept :
        (in_store c.correction_id (is_duplicate now c.correction_id p).1.store ≡ true)
        × (has_store (is_duplicate now c.correction_id p).1.store ≡ true)
    kept =
        is_duplicate-in now c.correction_id c.correction_id p s refl_store
          (inr ((string_eq.beq_iff c.correction_id c.correction_id).1 refl))
