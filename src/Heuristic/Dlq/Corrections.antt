-- ===== src/Heuristic/Dlq/Corrections.antt =====
-- heuristic/dlq.py: `compute_corrections`. The id of a group is the record of the two numbers that the
-- code formats into a string; `uuid4` gives the ids in the order of the calls. A window size is positive: 0 is
-- the ZeroDivisionError of the code.
use csdlpt.Prelude.{
  ℕ, suc, ◌+◌, ◌==◌, ◌&&◌, ◌≡◌, ◌↔◌, arith, Bool, true, String, Option, none, some, List, [], ◌∷◌,
  ◌++◌, ℤ, pos, ◌+ℤ◌, eqb_ℤ, floor_to, length, map, Eq, if◌then◌else◌,
}
use csdlpt.Prelude.Dict
use csdlpt.Prelude.Dict.{Dict}
use csdlpt.Heuristic.Dlq.Pipeline.{DlqEntry}

-- f"{e.partition_id}_{ws}"
pub record GroupId : Type 0 where
  pub partition : ℕ
  pub start : ℤ

unfoldable pub group_beq : GroupId → GroupId → Bool
group_beq a b = a.partition == b.partition && eqb_ℤ a.start b.start

pub group_beq_iff : (a b : GroupId) → (group_beq a b ≡ true) ↔ (a ≡ b)
unfolding group_beq eqb_ℤ
group_beq_iff a b = ground arith

instance abbrev pub group_eq : Eq GroupId
group_eq = record { beq = group_beq; beq_iff = group_beq_iff }

pub data MessageType : Type 0 where
  window_correction final_reconciliation : MessageType

pub record CorrectionMessage : Type 0 where
  pub message_type : MessageType
  pub window_id : GroupId
  pub correction_id : String
  pub previous_count : ℕ
  pub previous_sum : ℤ
  pub corrected_count : ℕ
  pub corrected_sum : ℤ
  pub delta_count : ℕ
  pub delta_sum : ℤ
  pub late_log_ids : List String
  pub previous_emit_timestamp : ℕ
  pub correction_timestamp : ℕ

-- What the code reads of an earlier result; a missing key counts as 0.
pub record Previous : Type 0 where
  pub count : ℕ
  pub sum : ℤ
  pub emitted_at : ℕ

abbrev pub no_previous : Previous
no_previous = record { count = 0; sum = pos 0; emitted_at = 0 }

abbrev pub group_of : ℕ → DlqEntry → GroupId
group_of window_size e = record {
  partition = e.partition_id;
  start = floor_to window_size e.T_event;
}

-- `groups[key].append(e)`, with [] for a new key
abbrev pub append_to :
    GroupId → DlqEntry → Dict GroupId (List DlqEntry) → Dict GroupId (List DlqEntry)
append_to k e d = Dict.put d k (Dict.get_or (Dict.get d k) [] ++ e ∷ [])

unfoldable pub group :
    ℕ → List DlqEntry → Dict GroupId (List DlqEntry) → Dict GroupId (List DlqEntry)
group window_size [] d = d
group window_size (e ∷ l) d = group window_size l (append_to (group_of window_size e) e d)

unfoldable pub sum_responses : List DlqEntry → ℤ
sum_responses [] = pos 0
sum_responses (e ∷ l) = Dict.get_or e.response (pos 0) +ℤ sum_responses l

-- No lookup, a lookup that raises, and one that answers None all leave the zeros.
abbrev pub previous_of : Option (GroupId → Option Previous) → GroupId → Previous
previous_of none w = no_previous
previous_of (some lookup) w = Dict.get_or (lookup w) no_previous

unfoldable pub correction :
    ℕ → MessageType → String → Previous → GroupId → List DlqEntry → CorrectionMessage
unfolding sum_responses
correction now message_type id prev w evts = record {
  message_type = message_type;
  window_id = w;
  correction_id = id;
  previous_count = prev.count;
  previous_sum = prev.sum;
  corrected_count = prev.count + length evts;
  corrected_sum = prev.sum +ℤ sum_responses evts;
  delta_count = length evts;
  delta_sum = sum_responses evts;
  late_log_ids = map (λ e. e.event_id) evts;
  previous_emit_timestamp = prev.emitted_at;
  correction_timestamp = now;
}

module _ (uuid4 : ℕ → String) (lookup : Option (GroupId → Option Previous)) (now : ℕ)
    (is_final : Bool) where
  abbrev pub message_type : MessageType
  message_type = if is_final then final_reconciliation else window_correction

  -- The loop over the groups; `n` ids have been drawn.
  unfoldable pub corrections_of : ℕ → Dict GroupId (List DlqEntry) → List CorrectionMessage
  unfolding correction
  corrections_of n [] = []
  corrections_of n ((w, evts) ∷ d) =
      correction now message_type (uuid4 n) (previous_of lookup w) w evts ∷ corrections_of (suc n) d

  unfoldable pub compute_corrections : ℕ → List DlqEntry → List CorrectionMessage
  unfolding corrections_of group
  compute_corrections window_size entries = corrections_of 0 (group window_size entries [])

-- `_corrections_sent[window_id] = correction`
unfoldable pub record_sent :
    List CorrectionMessage → Dict GroupId CorrectionMessage → Dict GroupId CorrectionMessage
record_sent [] d = d
record_sent (c ∷ l) d = record_sent l (Dict.put d c.window_id c)
