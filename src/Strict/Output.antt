-- ===== src/Strict/Output.antt =====
-- strict/output_manager.py: `OutputManager`. A Kafka producer is not code of the repository: its `send`
-- takes the message, which is then appended to `sent`, or raises, and the code goes on either way.
-- `takes` says which of the two it does, by topic and by the number of the emissions before.
pub mod Sink
mod Result
pub mod Once
pub mod Answers
pub use Result.{Payload, payload}
use csdlpt.Prelude.{
  ℕ, suc, ◌+◌, ◌-◌, Bool, true, false, ◌&&◌, Option, none, some, List, [], ◌∷◌, ◌++◌, ltb, elem,
  drop, length, if◌then◌else◌,
}
use csdlpt.Common.Types.{WindowId, WindowResult, window_eq}

pub data Mode : Type 0 where
  idempotent transactional : Mode

pub data Topic : Type 0 where
  results audit : Topic

pub record Emission : Type 0 where
  pub window_id : WindowId
  pub count : ℕ
  pub timestamp : ℕ

-- A message of `send`, with its key.
pub record Sent : Type 0 where
  pub topic : Topic
  pub key : WindowId
  pub body : Payload

pub record OutputManager : Type 0 where
  pub mode : Mode
  pub emitted : List WindowId
  pub sink : Option Sink.Sink
  pub emission_log : List Emission
  pub emission_count : ℕ
  pub has_producer : Bool
  pub has_audit : Bool
  pub takes : Topic → ℕ → Bool
  pub sent : List Sent

-- `__init__`
unfoldable pub init : Mode → Bool → Bool → (Topic → ℕ → Bool) → Option Sink.TxTables → OutputManager
init mode has_producer has_audit takes store = record {
  mode = mode;
  emitted = [];
  sink = elim mode [ idempotent ↦ none | transactional ↦ some (Sink.empty store) ];
  emission_log = [];
  emission_count = 0;
  has_producer = has_producer;
  has_audit = has_audit;
  takes = takes;
  sent = [];
}

message : Topic → Payload → Sent
message t p = record { topic = t; key = p.window_id; body = p }

-- The two `send` calls, each under its `is not None` and in its `try`.
pub send_all : Payload → OutputManager → List Sent
unfolding message
send_all p m =
    m.sent
    ++ (if m.has_producer && m.takes results m.emission_count then message results p ∷ [] else [])
    ++ (if m.has_audit && m.takes audit m.emission_count then message audit p ∷ [] else [])

-- The log keeps its last 500 entries once it is longer than 1000.
trim : List Emission → List Emission
trim log = if ltb 1000 (length log) then drop (length log - 500) log else log

-- From the Kafka `send` on.
publish : ℕ → WindowResult → OutputManager → OutputManager
unfolding send_all trim
publish now r m = record m {
  sent = send_all (payload now r) m;
  emitted = r.window_id ∷ m.emitted;
  emission_count = m.emission_count + 1;
  emission_log = trim (
      m.emission_log
      ++ (record { window_id = r.window_id; count = r.count; timestamp = now }) ∷ []);
}

-- A refused commit is rolled back.
finish : ℕ → Bool × Sink.Sink → Bool × Sink.Sink
finish tx (true, s) = (true, s)
finish tx (false, s) = (false, Sink.rollback tx s)

-- begin_tx, pre_commit (which always answers True), commit
transact : ℕ → WindowResult → Sink.Sink → Bool × Sink.Sink
unfolding finish
transact now r s =
    let (tx, s₁) = Sink.begin_tx now r.window_id s in
    let s₂ = Sink.pre_commit now tx r.window_id (payload now r) s₁ in
    finish tx (Sink.commit tx r.window_id (payload now r) s₂)

deliver : ℕ → WindowResult → OutputManager → Bool × Sink.Sink → Bool × OutputManager
unfolding publish
deliver now r m (true, s) = (true, publish now r (record m { sink = some s }))
deliver now r m (false, s) = (false, record m { sink = some s })

-- `emit` of a window that was not emitted before
emit_through : ℕ → WindowResult → OutputManager → Mode → Option Sink.Sink → Bool × OutputManager
unfolding transact deliver
emit_through now r m idempotent sink = (true, publish now r m)
emit_through now r m transactional none = (true, publish now r m)
emit_through now r m transactional (some s) = deliver now r m (transact now r s)

unfoldable pub emit : ℕ → WindowResult → OutputManager → Bool × OutputManager
unfolding emit_through
emit now r m = if elem r.window_id m.emitted then (false, m) else emit_through now r m m.mode m.sink

unfoldable pub is_emitted : OutputManager → WindowId → Bool
is_emitted m w = elem w m.emitted

-- `save_emitted`, then `load_emitted` of that file into a manager.
pub record Saved : Type 0 where
  pub ids : List WindowId
  pub count : ℕ

unfoldable pub save_emitted : OutputManager → Saved
save_emitted m = record { ids = m.emitted; count = m.emission_count }

add_all : List WindowId → List WindowId → List WindowId
add_all [] old = old
add_all (w ∷ ws) old = let rest = add_all ws old in if elem w rest then rest else w ∷ rest

unfoldable pub load_emitted : Option Saved → OutputManager → OutputManager
unfolding add_all
load_emitted none m = m
load_emitted (some f) m = record m {
  emitted = add_all f.ids m.emitted;
  emission_count = if ltb m.emission_count f.count then f.count else m.emission_count;
}
