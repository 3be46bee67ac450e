-- ===== src/Strict/Raft/Ballots.antt =====
-- strict/raft_coordinator.py: the ballots a node casts in a run, in `_start_election` for itself and in
-- `handle_vote_request` for a candidate.
use csdlpt.Prelude.{
  ℕ, ◌+◌, ◌-◌, ◌&&◌, ◌||◌, Option, none, some, nat_eq, ◌≡◌, inl, inr, subst, sym, ◌≢◌, Bool, true,
  false, String, List, [], ◌∷◌, string_eq, ltb, if◌then◌else◌, arith, Bool-cases,
}
use csdlpt.Prelude.Mark.{Mark}
use csdlpt.Common.Types.{WorkerHeartbeat}
use csdlpt.Strict.Raft.Node.{
  RaftCoordinator, Reply, timer, start_election, decide, handle_vote_request, new_term, may_vote,
  grant, receive_state, handle_zk_state, heartbeat_round, receive_heartbeat, is_leader,
}

pub record Ballot : Type 0 where
  pub term : ℕ
  pub candidate_id : String

-- The calls that others make to a node, and the rounds of its threads.
pub data Call : Type 0 where
  tick : ℕ → List Reply → Call
  vote_request : ℕ → ℕ → String → Mark → Call
  state_message : ℕ → ℕ → String → Mark → Call
  zk_state : ℕ → String → Mark → Call
  broadcast_round : List Reply → Call
  worker_heartbeat : ℕ → WorkerHeartbeat → Call

unfoldable pub call : Call → RaftCoordinator → RaftCoordinator
call (tick now rs) n = timer now rs n
call (vote_request now t id w) n = (handle_vote_request now t id w n).1
call (state_message now t id w) n = receive_state now t id w n
call (zk_state now id w) n = handle_zk_state now id w n
call (broadcast_round acks) n = heartbeat_round acks n
call (worker_heartbeat now hb) n = (receive_heartbeat now hb n).1

-- The ballot of a call, if it is one: of a node that stands, for itself, in the term it begins.
unfoldable pub ballot : Call → RaftCoordinator → Option Ballot
ballot (tick now rs) n =
    if is_leader n.role
    then none
    else if ltb 3000 (now - n.last_leader_heartbeat)
    then some (record { term = n.current_term + 1; candidate_id = n.coordinator_id })
    else none
ballot (vote_request now t id w) n =
    if (handle_vote_request now t id w n).0
    then some
        (record { term = (handle_vote_request now t id w n).1.current_term; candidate_id = id })
    else none
ballot (state_message now t id w) n = none
ballot (zk_state now id w) n = none
ballot (broadcast_round acks) n = none
ballot (worker_heartbeat now hb) n = none

unfoldable pub is_for : ℕ → String → Option Ballot → Bool
is_for t a none = false
is_for t a (some b) = nat_eq.beq b.term t && string_eq.beq b.candidate_id a

-- A run casts a ballot in this term for this candidate.
unfoldable pub casts : ℕ → String → List Call → RaftCoordinator → Bool
casts t a [] n = false
casts t a (c ∷ cs) n = is_for t a (ballot c n) || casts t a cs (call c n)

unfoldable pub run : List Call → RaftCoordinator → RaftCoordinator
run [] n = n
run (c ∷ cs) n = run cs (call c n)

-- The node may still cast this ballot.
unfoldable may_cast : ℕ → String → RaftCoordinator → Bool
may_cast t a n =
    ltb n.current_term t
    || (nat_eq.beq n.current_term t
        && (string_eq.beq n.voted_for "" || string_eq.beq n.voted_for a))

may_cast-new_term :
    (t : ℕ) (a : String) (u : ℕ) (n : RaftCoordinator)
    → may_cast t a (new_term u n) ≡ true
    → may_cast t a n ≡ true
unfolding may_cast
may_cast-new_term t a u n h = ground arith

may_cast-grant :
    (t : ℕ) (a : String) (now u : ℕ) (id : String) (w : Mark) (n : RaftCoordinator)
    → may_vote u id n ≡ true
    → may_cast t a (grant now id w n) ≡ true
    → may_cast t a n ≡ true
unfolding may_cast
may_cast-grant t a now u id w n e h = ground (
  arith,
  string_eq.beq_iff n.voted_for id,
  string_eq.beq_iff n.voted_for "",
  string_eq.beq_iff id a,
  string_eq.beq_iff n.voted_for a,
)

vote-yes :
    (now u : ℕ) (id : String) (w : Mark) (n : RaftCoordinator)
    → may_vote u id (new_term u n) ≡ true
    → handle_vote_request now u id w n ≡ (true, grant now id w (new_term u n))
unfolding handle_vote_request
vote-yes now u id w n e = rw e

vote-no :
    (now u : ℕ) (id : String) (w : Mark) (n : RaftCoordinator)
    → may_vote u id (new_term u n) ≡ false
    → handle_vote_request now u id w n ≡ (false, new_term u n)
unfolding handle_vote_request
vote-no now u id w n e = rw e

may_cast-call :
    (t : ℕ) (a : String) (c : Call) (n : RaftCoordinator)
    → may_cast t a (call c n) ≡ true
    → may_cast t a n ≡ true
unfolding may_cast call timer start_election decide handle_vote_request receive_state
    handle_zk_state heartbeat_round receive_heartbeat
may_cast-call t a (tick now rs) n h = ground arith
may_cast-call t a (vote_request now u id w) n h =
    may_cast-new_term t a u n (elim (Bool-cases (may_vote u id (new_term u n))) [
      | inl e ↦
          may_cast-grant t a now u id w (new_term u n) e
            (subst (λ r. may_cast t a r.1 ≡ true) (vote-yes now u id w n e) h)
      | inr e ↦ subst (λ r. may_cast t a r.1 ≡ true) (vote-no now u id w n e) h
    ])
may_cast-call t a (state_message now u id w) n h = ground arith
may_cast-call t a (zk_state now id w) n h = h
may_cast-call t a (broadcast_round acks) n h = ground arith
may_cast-call t a (worker_heartbeat now hb) n h = ground arith

-- What a call that casts a ballot says of the node before it and after it.
ballot-may_cast :
    (t : ℕ) (a : String) (c : Call) (n : RaftCoordinator)
    → is_for t a (ballot c n) ≡ true
    → may_cast t a n ≡ true
unfolding is_for ballot may_cast handle_vote_request
ballot-may_cast t a (tick now rs) n h = ground arith
ballot-may_cast t a (vote_request now u id w) n h = ground (arith, string_eq.beq_iff id a)
ballot-may_cast t a (state_message now u id w) n h = ground arith
ballot-may_cast t a (zk_state now id w) n h = ground arith
ballot-may_cast t a (broadcast_round acks) n h = ground arith
ballot-may_cast t a (worker_heartbeat now hb) n h = ground arith

-- After a ballot the node has its term, and has voted for its candidate.
ballot-voted :
    (t : ℕ) (a : String) (c : Call) (n : RaftCoordinator)
    → is_for t a (ballot c n) ≡ true
    → ((call c n).current_term ≡ t) × ((call c n).voted_for ≡ a)
unfolding is_for ballot call timer start_election decide handle_vote_request
ballot-voted t a (tick now rs) n h = ground (arith, string_eq.beq_iff n.coordinator_id a)
ballot-voted t a (vote_request now u id w) n h = ground (arith, string_eq.beq_iff id a)
ballot-voted t a (state_message now u id w) n h = ground arith
ballot-voted t a (zk_state now id w) n h = ground arith
ballot-voted t a (broadcast_round acks) n h = ground arith
ballot-voted t a (worker_heartbeat now hb) n h = ground arith

casts-may_cast :
    (t : ℕ) (a : String) (cs : List Call) (n : RaftCoordinator)
    → casts t a cs n ≡ true
    → may_cast t a n ≡ true
unfolding casts
casts-may_cast t a [] n h = ground arith
casts-may_cast t a (c ∷ cs) n h = elim (Bool-cases (is_for t a (ballot c n))) [
  | inl e ↦ ballot-may_cast t a c n e
  | inr e ↦ may_cast-call t a c n (casts-may_cast t a cs (call c n) (ground (arith, e)))
]

-- A ballot later in the run, in the term of one just cast, is for the same candidate.
casts-voted :
    (t : ℕ) (a b : String) (c : Call) (cs : List Call) (n : RaftCoordinator)
    → a ≢ ""
    → is_for t a (ballot c n) ≡ true
    → casts t b cs (call c n) ≡ true
    → a ≡ b
unfolding may_cast
casts-voted t a b c cs n ha e h = ground (
  arith,
  ha,
  ballot-voted t a c n e,
  casts-may_cast t b cs (call c n) h,
  string_eq.beq_iff a b,
  string_eq.beq_iff a "",
)

is_for_unique :
    (t : ℕ) (a b : String) (o : Option Ballot) → is_for t a o ≡ true → is_for t b o ≡ true → a ≡ b
unfolding is_for
is_for_unique t a b none h k = ground arith
is_for_unique t a b (some x) h k =
    ground (arith, string_eq.beq_iff x.candidate_id a, string_eq.beq_iff x.candidate_id b)

-- Whatever calls a node takes, it casts no ballots for two candidates, each with a name, in one term.
pub casts_once :
    (t : ℕ) (a b : String) (cs : List Call) (n : RaftCoordinator)
    → a ≢ ""
    → b ≢ ""
    → casts t a cs n ≡ true
    → casts t b cs n ≡ true
    → a ≡ b
unfolding casts
casts_once t a b [] n ha hb h k = ground arith
casts_once t a b (c ∷ cs) n ha hb h k = elim (Bool-cases (is_for t a (ballot c n))) [
  | inl e ↦ elim (Bool-cases (is_for t b (ballot c n))) [
    | inl f ↦ is_for_unique t a b (ballot c n) e f
    | inr f ↦ casts-voted t a b c cs n ha e (ground (arith, f))
  ]
  | inr e ↦ elim (Bool-cases (is_for t b (ballot c n))) [
    | inl f ↦ sym (casts-voted t b a c cs n hb f (ground (arith, e)))
    | inr f ↦ casts_once t a b cs (call c n) ha hb (ground (arith, e)) (ground (arith, f))
  ]
]
