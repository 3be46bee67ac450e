-- ===== src/Strict/Raft/Rising.antt =====
-- strict/raft_coordinator.py: the term and `W_global` of a node over a run of calls.
use csdlpt.Prelude.{
  ℕ, ◌≤◌, ◌≡◌, inl, inr, Bool, true, ◌&&◌, List, [], ◌∷◌, String, arith, Bool-cases, subst, sym,
  leb,
}
use csdlpt.Prelude.Mark
use csdlpt.Prelude.Mark.{Mark, ◌⊑◌, ⊑_refl, ⊑_trans, lt_le, le-lt, le_iff}
use csdlpt.Common.Types.{WorkerHeartbeat}
use csdlpt.Strict.Coordinator.State.{Coordinator}
use csdlpt.Strict.Coordinator.Watermark.{receive_heartbeat-mono}
use csdlpt.Strict.Raft.Node.{
  RaftCoordinator, Reply, timer, start_election, decide, handle_vote_request, receive_state,
  handle_zk_state, heartbeat_round, receive_heartbeat, new_term, may_vote, is_leader, copy_global,
  raise_global,
}
use csdlpt.Strict.Raft.Ballots.{
  Call, tick, vote_request, state_message, zk_state, broadcast_round, worker_heartbeat, call, run,
}

-- `W_global` is not ahead of `W_global_prev`, from which the next heartbeat computes it.
unfoldable pub IsLevel : Coordinator → Type 0
IsLevel c = c.W_global ⊑ c.W_global_prev

-- `W_global` is not behind, and the coordinator is level.
unfoldable Follows : Coordinator → Coordinator → Type 0
Follows d c = (d.W_global ⊑ c.W_global) × IsLevel c

-- A candidate claims no more than the `W_global` of the node.
abbrev pub claims_no_more : Call → RaftCoordinator → Bool
claims_no_more (tick now rs) n = true
claims_no_more (vote_request now t id w) n = Mark.le w n.coordinator.W_global
claims_no_more (state_message now t id w) n = true
claims_no_more (zk_state now id w) n = true
claims_no_more (broadcast_round acks) n = true
claims_no_more (worker_heartbeat now hb) n = true

unfoldable pub is_modest : List Call → RaftCoordinator → Bool
is_modest [] n = true
is_modest (c ∷ cs) n = claims_no_more c n && is_modest cs (call c n)

copy-Follows : (w : Mark) (c : Coordinator) → IsLevel c → Follows c (copy_global w c)
unfolding Follows IsLevel
copy-Follows w c h = elim (Bool-cases (Mark.lt c.W_global w)) [
  | inl e ↦ rw e (lt_le c.W_global w e, ⊑_refl w)
  | inr e ↦ rw e (⊑_refl c.W_global, h)
]

raise-same : (w : Mark) (c : Coordinator) → Mark.le w c.W_global ≡ true → raise_global w c ≡ c
raise-same w c k = rw (le-lt c.W_global w k)

timer-coordinator :
    (now : ℕ) (rs : List Reply) (n : RaftCoordinator) → (timer now rs n).coordinator ≡ n.coordinator
unfolding timer start_election decide
timer-coordinator now rs n = ground arith

round-coordinator :
    (rs : List Reply) (n : RaftCoordinator) → (heartbeat_round rs n).coordinator ≡ n.coordinator
unfolding heartbeat_round
round-coordinator rs n = ground arith

new_term-coordinator : (u : ℕ) (n : RaftCoordinator) → (new_term u n).coordinator ≡ n.coordinator
new_term-coordinator u n = ground arith

vote-coordinator :
    (now u : ℕ) (id : String) (w : Mark) (n : RaftCoordinator)
    → Mark.le w n.coordinator.W_global ≡ true
    → (handle_vote_request now u id w n).1.coordinator ≡ n.coordinator
unfolding handle_vote_request
vote-coordinator now u id w n k = elim (Bool-cases (may_vote u id (new_term u n))) [
  | inl e ↦ rw (e, new_term-coordinator u n, raise-same w n.coordinator k)
  | inr e ↦ rw (e, new_term-coordinator u n)
]

state-Follows :
    (now u : ℕ) (id : String) (w : Mark) (n : RaftCoordinator)
    → IsLevel n.coordinator
    → Follows n.coordinator (receive_state now u id w n).coordinator
unfolding receive_state Follows IsLevel
state-Follows now u id w n h = elim (Bool-cases (leb n.current_term u)) [
  | inl e ↦ rw e (copy-Follows w n.coordinator h)
  | inr e ↦ rw e (⊑_refl n.coordinator.W_global, h)
]

heartbeat-Follows :
    (now : ℕ) (hb : WorkerHeartbeat) (n : RaftCoordinator)
    → IsLevel n.coordinator
    → Follows n.coordinator (receive_heartbeat now hb n).1.coordinator
unfolding receive_heartbeat Follows IsLevel
heartbeat-Follows now hb n h = elim (Bool-cases (is_leader n.role)) [
  | inl e ↦ rw e (receive_heartbeat-mono now hb n.coordinator h)
  | inr e ↦ rw e (⊑_refl n.coordinator.W_global, h)
]

stays-Follows : (c d : Coordinator) → IsLevel c → d ≡ c → Follows c d
unfolding Follows IsLevel
stays-Follows c d h e = subst (Follows c) (sym e) (⊑_refl c.W_global, h)

call-Follows :
    (c : Call) (n : RaftCoordinator)
    → IsLevel n.coordinator
    → claims_no_more c n ≡ true
    → Follows n.coordinator (call c n).coordinator
unfolding call handle_zk_state
call-Follows (tick now rs) n h k = stays-Follows n.coordinator _ h (timer-coordinator now rs n)
call-Follows (vote_request now u id w) n h k =
    stays-Follows n.coordinator _ h (vote-coordinator now u id w n k)
call-Follows (state_message now u id w) n h k = state-Follows now u id w n h
call-Follows (zk_state now id w) n h k = copy-Follows w n.coordinator h
call-Follows (broadcast_round acks) n h k =
    stays-Follows n.coordinator _ h (round-coordinator acks n)
call-Follows (worker_heartbeat now hb) n h k = heartbeat-Follows now hb n h

call-term : (c : Call) (n : RaftCoordinator) → n.current_term ≤ (call c n).current_term
unfolding call timer start_election decide handle_vote_request receive_state handle_zk_state
    heartbeat_round receive_heartbeat
call-term (tick now rs) n = ground arith
call-term (vote_request now u id w) n = ground arith
call-term (state_message now u id w) n = ground arith
call-term (zk_state now id w) n = ground arith
call-term (broadcast_round acks) n = ground arith
call-term (worker_heartbeat now hb) n = ground arith

run-term : (cs : List Call) (n : RaftCoordinator) → n.current_term ≤ (run cs n).current_term
unfolding run
run-term [] n = omega arith
run-term (c ∷ cs) n = omega (arith, call-term c n, run-term cs (call c n))

run-Follows :
    (cs : List Call) (n : RaftCoordinator)
    → IsLevel n.coordinator
    → is_modest cs n ≡ true
    → Follows n.coordinator (run cs n).coordinator
unfolding run is_modest Follows
run-Follows [] n h k = (⊑_refl n.coordinator.W_global, h)
run-Follows (c ∷ cs) n h k =
    let first : Follows n.coordinator (call c n).coordinator =
      call-Follows c n h (ground (arith, k)) in
    let rest : Follows (call c n).coordinator (run cs (call c n)).coordinator =
      run-Follows cs (call c n) first.1 (ground (arith, k)) in
    (
      ⊑_trans n.coordinator.W_global (call c n).coordinator.W_global
          (run cs (call c n)).coordinator.W_global first.0 rest.0,
      rest.1,
    )

-- If `W_global` of a node is level with `W_global_prev`, and no candidate that asks for its vote claims
-- more than the node has, then neither its term nor its `W_global` falls in a run of calls.
pub run_rises :
    (cs : List Call) (n : RaftCoordinator)
    → IsLevel n.coordinator
    → is_modest cs n ≡ true
    → (n.current_term ≤ (run cs n).current_term)
      × (n.coordinator.W_global ⊑ (run cs n).coordinator.W_global)
unfolding Follows
run_rises cs n h k = (run-term cs n, (run-Follows cs n h k).0)
