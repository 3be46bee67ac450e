-- ===== src/Strict/Raft/Election.antt =====
-- strict/raft_coordinator.py: the elections of a cluster, each node of which lives a run of calls.
use csdlpt.Prelude.{
  ℕ, ◌+◌, ◌/◌, ◌≤◌, ◌<◌, ◌≡◌, ◌≢◌, inl, inr, subst, sym, String, List, [], ◌∷◌, if◌then◌else◌,
  arith, Bool-cases, length, string_eq,
}
use csdlpt.Strict.Raft.Node.{RaftCoordinator, Reply, leader, start_election, decide, tally}
use csdlpt.Strict.Raft.Ballots.{Call, casts, casts_once}

-- A node from the start of its process, with the calls it takes.
pub record Life : Type 0 where
  pub start : RaftCoordinator
  pub calls : List Call

-- How many nodes cast a ballot in this term for this candidate.
unfoldable pub voters : ℕ → String → List Life → ℕ
voters t a [] = 0
voters t a (l ∷ ls) = (if casts t a l.calls l.start then 1 else 0) + voters t a ls

-- Two candidates of one term share no voter.
voters-disjoint :
    (t : ℕ) (a b : String) (ls : List Life)
    → a ≢ ""
    → b ≢ ""
    → a ≢ b
    → voters t a ls + voters t b ls ≤ length ls
unfolding voters
voters-disjoint t a b [] ha hb ne = omega arith
voters-disjoint t a b (l ∷ ls) ha hb ne = elim (Bool-cases (casts t a l.calls l.start)) [
  | inl e ↦ elim (Bool-cases (casts t b l.calls l.start)) [
    | inl f ↦ absurd (ne (casts_once t a b l.calls l.start ha hb e f))
    | inr f ↦ ground (arith, e, f, voters-disjoint t a b ls ha hb ne)
  ]
  | inr e ↦ ground (arith, e, voters-disjoint t a b ls ha hb ne)
]

same_candidate :
    (t : ℕ) (a b : String) (ls : List Life)
    → a ≢ ""
    → b ≢ ""
    → length ls < voters t a ls + voters t b ls
    → a ≡ b
same_candidate t a b ls ha hb h = elim (Bool-cases (string_eq.beq a b)) [
  | inl e ↦ (string_eq.beq_iff a b).0 e
  | inr f ↦ absurd (
      omega (arith, voters-disjoint t a b ls ha hb (λ e. ground (arith, f, string_eq.beq_iff a b))))
]

-- Who becomes the leader has the votes of more than half of the nodes.
leader-tally :
    (rs : List Reply) (n : RaftCoordinator)
    → (start_election rs n).role ≡ leader
    → (length n.peers + 1) / 2 < 1 + tally rs
unfolding start_election decide
leader-tally rs n h = ground arith

-- There is one leader in a term: let two nodes with names win an election in the same term, each with
-- all other nodes of the cluster as its peers, and let each answer that grants them a vote, and their
-- own vote, be a ballot that one of the nodes casts in its run. Then they are the same node.
pub elected_once :
    (ls : List Life) (n m : RaftCoordinator) (rs qs : List Reply)
    → n.coordinator_id ≢ ""
    → m.coordinator_id ≢ ""
    → length n.peers + 1 ≡ length ls
    → length m.peers + 1 ≡ length ls
    → 1 + tally rs ≤ voters (n.current_term + 1) n.coordinator_id ls
    → 1 + tally qs ≤ voters (m.current_term + 1) m.coordinator_id ls
    → n.current_term ≡ m.current_term
    → (start_election rs n).role ≡ leader
    → (start_election qs m).role ≡ leader
    → n.coordinator_id ≡ m.coordinator_id
elected_once ls n m rs qs hn hm ln lm gn gm e wn wm =
    let at : 1 + tally qs ≤ voters (n.current_term + 1) m.coordinator_id ls =
      subst (λ t. 1 + tally qs ≤ voters (t + 1) m.coordinator_id ls) (sym e) gm in
    same_candidate (n.current_term + 1) n.coordinator_id m.coordinator_id ls hn hm
      (ground (arith, leader-tally rs n wn, leader-tally qs m wm, at))
