-- ===== src/Strict/Failover/Confirm.antt =====
-- strict/failover.py: a heartbeat of the new owner confirms a reassignment.
use csdlpt.Prelude.{
  ℕ, ◌&&◌, not, ◌≡◌, ◌⊎◌, inl, inr, refl, sym, subst, Bool, true, false, String, Option, none, some,
  List, [], ◌∷◌, nat_eq, string_eq, elem, if◌then◌else◌, arith, Bool-cases,
}
use csdlpt.Prelude.Dict
use csdlpt.Prelude.Dict.{Dict}
use csdlpt.Common.Types.{assigned, reassigning}
use csdlpt.Strict.Failover.State.{FailoverManager, WorkerRecord, alive_workers}
use csdlpt.Strict.Failover.Reassign.{is_gone, is_orphan, reassign_failed_partitions}
use csdlpt.Strict.Failover.Ownership.{IsGiven, AllServe, reassign-IsGiven}
use csdlpt.Strict.Failover.Membership.{
  claim, confirm, report_all, heartbeat, heard, update_offsets, is_state, is_target,
}

-- The partition is on its way to the worker, or has arrived.
unfoldable pub is_coming : String → ℕ → FailoverManager → Bool
is_coming w pid m =
    is_state reassigning (Dict.get m.partition_state pid)
    && is_target w (Dict.get m.pending_reassignments pid)

unfoldable pub is_settled : ℕ → FailoverManager → Bool
is_settled pid m =
    is_state assigned (Dict.get m.partition_state pid) && not (Dict.has m.pending_reassignments pid)

turn-coming :
    (w : String) (p j : ℕ) (m : FailoverManager)
    → is_coming w j m ≡ true
    → nat_eq.beq p j ≡ false
    → is_coming w j (confirm w p (claim w p m)) ≡ true
unfolding is_coming confirm claim
turn-coming w p j m h e = ground (
  arith,
  Dict.get-put m.partition_state p j assigned,
  Dict.get-remove m.pending_reassignments p j,
)

turn-settles :
    (w : String) (j : ℕ) (m : FailoverManager)
    → is_coming w j m ≡ true
    → is_settled j (confirm w j (claim w j m)) ≡ true
unfolding is_coming is_settled confirm claim
turn-settles w j m h = ground (
  arith,
  Dict.get-put m.partition_state j j assigned,
  Dict.get-remove m.pending_reassignments j j,
)

turn-settled :
    (w : String) (p j : ℕ) (m : FailoverManager)
    → is_settled j m ≡ true
    → is_settled j (confirm w p (claim w p m)) ≡ true
unfolding is_settled confirm claim
turn-settled w p j m h = ground (
  arith,
  Dict.get-put m.partition_state p j assigned,
  Dict.get-remove m.pending_reassignments p j,
)

turn-owner :
    (w : String) (p j : ℕ) (m : FailoverManager)
    → Dict.get (confirm w p (claim w p m)).partition_owner j
      ≡ (if nat_eq.beq p j then some w else Dict.get m.partition_owner j)
unfolding confirm claim
turn-owner w p j m = ground (arith, Dict.get-put m.partition_owner p j w)

settled_at :
    (w : String) (p j : ℕ) (m : FailoverManager)
    → is_coming w j m ≡ true
    → nat_eq.beq p j ≡ true
    → is_settled j (confirm w p (claim w p m)) ≡ true
settled_at w p j m h k =
    subst (λ x. is_settled j (confirm w x (claim w x m)) ≡ true) (sym ((nat_eq.beq_iff p j).0 k))
      (turn-settles w j m h)

report_all-settled :
    (w : String) (l : List ℕ) (j : ℕ) (m : FailoverManager)
    → is_settled j m ≡ true
    → is_settled j (report_all w l m) ≡ true
unfolding report_all
report_all-settled w [] j m h = h
report_all-settled w (p ∷ l) j m h =
    report_all-settled w l j (confirm w p (claim w p m)) (turn-settled w p j m h)

report_all-coming :
    (w : String) (l : List ℕ) (j : ℕ) (m : FailoverManager)
    → is_coming w j m ≡ true
    → elem j l ≡ true
    → is_settled j (report_all w l m) ≡ true
unfolding report_all elem
report_all-coming w [] j m h e = cc
report_all-coming w (p ∷ l) j m h e = elim (Bool-cases (nat_eq.beq p j)) [
  | inl k ↦ report_all-settled w l j (confirm w p (claim w p m)) (settled_at w p j m h k)
  | inr k ↦
      report_all-coming w l j (confirm w p (claim w p m)) (turn-coming w p j m h k) (ground arith)
]

report_all-owner :
    (w : String) (l : List ℕ) (j : ℕ) (m : FailoverManager)
    → (elem j l ≡ true) ⊎ (Dict.get m.partition_owner j ≡ some w)
    → Dict.get (report_all w l m).partition_owner j ≡ some w
unfolding report_all elem
report_all-owner w [] j m h = ground arith
report_all-owner w (p ∷ l) j m h =
    report_all-owner w l j (confirm w p (claim w p m)) (ground (arith, turn-owner w p j m))

-- A heartbeat of a known worker that reports a partition which is REASSIGNING and waits for this
-- worker makes it ASSIGNED, with nothing pending, and owned by the worker.
pub heartbeat-confirm :
    (now : ℕ) (w : String) (l : List ℕ) (offsets : List (ℕ × ℕ)) (j : ℕ) (m : FailoverManager)
    → Dict.has m.workers w ≡ true
    → elem j l ≡ true
    → is_coming w j m ≡ true
    → (is_settled j (heartbeat now w l offsets m) ≡ true)
      × (Dict.get (heartbeat now w l offsets m).partition_owner j ≡ some w)
unfolding heartbeat is_coming
heartbeat-confirm now w l offsets j m₀ k e h =
    let m =
      heard now w (record m₀ { partition_offsets = update_offsets offsets m₀.partition_offsets }) in
    ground (arith, report_all-coming w l j m h e, report_all-owner w l j m (inl e))

known : (o : Option WorkerRecord) → is_gone o ≡ false → Dict.is_some o ≡ true
known none e = cc
known (some wr) e = refl

given_comes :
    (m : FailoverManager) (pid : ℕ) (l : List String) (g : IsGiven m pid l)
    → AllServe m l
    → (is_coming g.target pid m ≡ true) × (Dict.has m.workers g.target ≡ true)
unfolding is_coming AllServe
given_comes m pid l g h = (
  rw (g.state, g.pending, Dict.beq_refl g.target),
  known (Dict.get m.workers g.target) (h g.target g.chosen),
)

-- While a worker is alive, an orphan (its owner unknown or failed, and not being reassigned) is given
-- by `reassign_failed_partitions` to an alive worker whose next heartbeat, if it reports the partition,
-- makes it ASSIGNED, with nothing pending, and owned by this worker.
pub reassign-heartbeat :
    (now later : ℕ) (m : FailoverManager) (pid : ℕ) (o a : String) (l : List ℕ)
    (offsets : List (ℕ × ℕ))
    → Dict.IsDict m.workers
    → Dict.IsDict m.partition_owner
    → elem a (alive_workers m) ≡ true
    → Dict.get m.partition_owner pid ≡ some o
    → is_orphan m (pid, o) ≡ true
    → elem pid l ≡ true
    → (w : String) × (elem w (alive_workers m) ≡ true)
      × (is_settled pid (heartbeat later w l offsets (reassign_failed_partitions now m).1) ≡ true)
      × (Dict.get
            (heartbeat later w l offsets (reassign_failed_partitions now m).1).partition_owner
            pid
          ≡ some w)
reassign-heartbeat now later m pid o a l offsets hw ho ha e k hl =
    let r = reassign-IsGiven now m pid o a hw ho ha e k in
    let c = given_comes (reassign_failed_partitions now m).1 pid (alive_workers m) r.0 r.1 in
    let s =
      heartbeat-confirm later r.0.target l offsets pid (reassign_failed_partitions now m).1 c.1 hl
        c.0 in
    (r.0.target, r.0.chosen, s.0, s.1)
