-- ===== src/Heuristic/Dlq/Pipeline.antt =====
-- heuristic/dlq.py: `DLQEntry` and `DLQPipeline` without its corrections. Of a payload only the value
-- under "response" is read. Times are milliseconds.
use csdlpt.Prelude.{
  ℕ, ◌+◌, ◌-◌, ◌*◌, Bool, true, false, ◌&&◌, ◌||◌, String, Option, none, some, List, [], ◌∷◌, ◌++◌,
  ℤ, pos, pos_part, leb_ℤ, eqb_ℤ, string_eq, ltb, ◌==◌, if◌then◌else◌, keep, length, take, drop,
}
use csdlpt.Prelude.Dict
use csdlpt.Prelude.Dict.{Dict}
use csdlpt.Prelude.Sort.{sort}

pub record DlqEntry : Type 0 where
  pub event_id : String
  pub T_event : ℤ
  pub arrival_time : ℕ
  pub lag : ℤ
  pub W_h_at_arrival : ℤ
  pub lateness : ℤ
  pub partition_id : ℕ
  pub original_status : ℕ
  pub worker_id : String
  pub response : Option ℤ

-- The dict that `enqueue` is called with: a key may be missing.
pub record Fields : Type 0 where
  pub event_id : Option String
  pub T_event : Option ℤ
  pub arrival_time : Option ℕ
  pub lag : Option ℤ
  pub W_h_at_arrival : Option ℤ
  pub lateness : Option ℤ
  pub partition_id : Option ℕ
  pub original_status : Option ℕ
  pub worker_id : Option String
  pub response : Option ℤ

pub record DlqPipeline : Type 0 where
  pub retention_days : ℤ
  pub entries : List DlqEntry
  pub store : Option (Dict String DlqEntry)
  pub entry_counter : ℕ
  pub has_producer : Bool
  pub sent : List DlqEntry

-- `_load_from_store`
unfoldable pub load_from_store : DlqPipeline → DlqPipeline
load_from_store p = elim p.store [
  | none ↦ p
  | some d ↦ record p {
    entries = p.entries ++ Dict.values d;
    entry_counter = p.entry_counter + length (Dict.values d);
  }
]

-- `__init__`
unfoldable pub init : ℤ → Option (Dict String DlqEntry) → Bool → DlqPipeline
unfolding load_from_store
init retention_days store has_producer = load_from_store (record {
  retention_days = retention_days;
  entries = [];
  store = store;
  entry_counter = 0;
  has_producer = has_producer;
  sent = [];
})

abbrev pub entry_of : Fields → DlqEntry
entry_of f = record {
  event_id = Dict.get_or f.event_id "";
  T_event = Dict.get_or f.T_event (pos 0);
  arrival_time = Dict.get_or f.arrival_time 0;
  lag = Dict.get_or f.lag (pos 0);
  W_h_at_arrival = Dict.get_or f.W_h_at_arrival (pos 0);
  lateness = Dict.get_or f.lateness (pos 0);
  partition_id = Dict.get_or f.partition_id 0;
  original_status = Dict.get_or f.original_status 0;
  worker_id = Dict.get_or f.worker_id "";
  response = f.response;
}

-- `_persist_entry`
unfoldable pub persist_entry :
    DlqEntry → Option (Dict String DlqEntry) → Option (Dict String DlqEntry)
persist_entry e none = none
persist_entry e (some d) = some (Dict.put d e.event_id e)

-- `_delete_entry`
unfoldable pub delete_entry : String → Option (Dict String DlqEntry) → Option (Dict String DlqEntry)
delete_entry id none = none
delete_entry id (some d) = some (Dict.remove d id)

unfoldable pub enqueue : Fields → DlqPipeline → DlqPipeline
unfolding persist_entry
enqueue f p =
    let e = entry_of f in
    record p {
      entries = p.entries ++ e ∷ [];
      entry_counter = p.entry_counter + 1;
      store = persist_entry e p.store;
      sent = if p.has_producer then p.sent ++ e ∷ [] else p.sent;
    }

abbrev pub backlog : DlqPipeline → ℕ
backlog p = length p.entries

abbrev pub same_response : Option ℤ → Option ℤ → Bool
same_response none none = true
same_response (some a) (some b) = eqb_ℤ a b
same_response _ _ = false

-- The `==` of the dataclass compares field by field.
unfoldable pub same_entry : DlqEntry → DlqEntry → Bool
same_entry a b =
    string_eq.beq a.event_id b.event_id
    && eqb_ℤ a.T_event b.T_event
    && a.arrival_time == b.arrival_time
    && eqb_ℤ a.lag b.lag
    && eqb_ℤ a.W_h_at_arrival b.W_h_at_arrival
    && eqb_ℤ a.lateness b.lateness
    && a.partition_id == b.partition_id
    && a.original_status == b.original_status
    && string_eq.beq a.worker_id b.worker_id
    && same_response a.response b.response

-- `list.remove`: the first equal element. A ValueError, when there is none, is caught.
unfoldable pub remove_entry : DlqEntry → List DlqEntry → List DlqEntry
remove_entry e [] = []
remove_entry e (x ∷ l) = let rest = remove_entry e l in if same_entry x e then l else x ∷ rest

unfoldable pub is_expired : ℕ → DlqEntry → Bool
is_expired cutoff e = ltb e.arrival_time cutoff

-- The loop over the expired entries.
unfoldable pub remove_entries : List DlqEntry → DlqPipeline → DlqPipeline
unfolding remove_entry
remove_entries [] p = p
remove_entries (e ∷ l) p =
    remove_entries l
      (record p { store = delete_entry e.event_id p.store; entries = remove_entry e p.entries })

-- A cutoff before the epoch is 0 here, and nothing arrived before either.
abbrev pub cutoff : ℕ → DlqPipeline → ℕ
cutoff now p = now - pos_part p.retention_days * 86400000

unfoldable pub purge_expired : ℕ → DlqPipeline → ℕ × DlqPipeline
unfolding remove_entries
purge_expired now p =
    if length p.entries == 0 || leb_ℤ p.retention_days (pos 0)
    then (0, p)
    else let expired = keep (is_expired (cutoff now p)) p.entries in
      (length expired, remove_entries expired p)

unfoldable pub delete_entries :
    List DlqEntry → Option (Dict String DlqEntry) → Option (Dict String DlqEntry)
delete_entries [] d = d
delete_entries (e ∷ l) d = delete_entries l (delete_entry e.event_id d)

abbrev pub by_arrival : DlqEntry → ℤ
by_arrival e = pos e.arrival_time

unfoldable pub drain : ℕ → DlqPipeline → List DlqEntry × DlqPipeline
unfolding delete_entries
drain batch_size p =
    if length p.entries == 0
    then ([], p)
    else let sorted = sort by_arrival p.entries in
      (
        take batch_size sorted,
        record p {
          entries = drop batch_size sorted;
          store = delete_entries (take batch_size sorted) p.store;
        },
      )
