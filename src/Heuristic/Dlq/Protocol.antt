-- ===== src/Heuristic/Dlq/Protocol.antt =====
-- heuristic/dlq.py: `CorrectionProtocol`, which applies a correction to a result downstream.
use csdlpt.Prelude.{
  ℕ, ◌+◌, Bool, true, false, String, Option, none, some, List, [], ◌∷◌, ◌++◌, string_eq, elem,
  if◌then◌else◌,
}
use csdlpt.Prelude.Dict
use csdlpt.Prelude.Dict.{Dict}
use csdlpt.Heuristic.Dlq.Corrections.{CorrectionMessage}

-- `other` is any string that no branch names.
pub data Pattern : Type 0 where
  incremental replace append other : Pattern

pub record Change : Type 0 where
  pub correction_id : String
  pub delta_count : ℕ
  pub correction_timestamp : ℕ

-- The keys of `current_result` that the code reads or writes.
pub record Result : Type 0 where
  pub count : Option ℕ
  pub version : Option ℕ
  pub correction_history : Option (List Change)

-- `store` maps a correction's id, under its prefix, to the time.
pub record CorrectionProtocol : Type 0 where
  pub pattern : Pattern
  pub store : Option (Dict String ℕ)
  pub processed : List String

abbrev pub stored_ids : Option (Dict String ℕ) → List String
stored_ids none = []
stored_ids (some d) = Dict.keys d

abbrev pub add_id : String → List String → List String
add_id id l = if elem id l then l else id ∷ l

-- An empty id is skipped.
unfoldable pub load_ids : List String → List String → List String
load_ids [] done = done
load_ids (id ∷ l) done = load_ids l (if string_eq.beq id "" then done else add_id id done)

-- `__init__`
unfoldable pub init : Pattern → Option (Dict String ℕ) → CorrectionProtocol
unfolding load_ids
init pattern store = record {
  pattern = pattern;
  store = store;
  processed = load_ids (stored_ids store) [];
}

abbrev pub in_store : String → Option (Dict String ℕ) → Bool
in_store id none = false
in_store id (some d) = Dict.has d id

abbrev pub put_id : ℕ → String → Option (Dict String ℕ) → Option (Dict String ℕ)
put_id now id none = none
put_id now id (some d) = some (Dict.put d id now)

-- An id that is not known is remembered, in memory and in the store.
unfoldable pub is_duplicate : ℕ → String → CorrectionProtocol → Bool × CorrectionProtocol
is_duplicate now id p =
    if elem id p.processed
    then (true, p)
    else let known = record p { processed = id ∷ p.processed } in
      if in_store id p.store
      then (true, known)
      else (false, record known { store = put_id now id p.store })

abbrev pub next_version : Result → Option ℕ
next_version r = some (Dict.get_or r.version 1 + 1)

abbrev pub change_of : CorrectionMessage → Change
change_of c = record {
  correction_id = c.correction_id;
  delta_count = c.delta_count;
  correction_timestamp = c.correction_timestamp;
}

abbrev pub corrected : Pattern → CorrectionMessage → Result → Result
corrected incremental c r = record r {
  count = some (Dict.get_or r.count 0 + c.delta_count);
  version = next_version r;
}
corrected replace c r = record r { count = some c.corrected_count; version = next_version r }
corrected append c r = record r {
  count = some c.corrected_count;
  version = next_version r;
  correction_history = some (Dict.get_or r.correction_history [] ++ change_of c ∷ []);
}
corrected other c r = r

unfoldable pub apply_correction :
    ℕ → CorrectionMessage → CorrectionProtocol × Result → CorrectionProtocol × Result
unfolding is_duplicate
apply_correction now c (p, r) =
    let (again, p') = is_duplicate now c.correction_id p in
    (p', if again then r else corrected p.pattern c r)
