-- ===== src/Strict/Failover/Leaving.antt =====
-- strict/failover.py: the operations that leave the failbacks, in memory and on disk, as they are.
use csdlpt.Prelude.{
  ℕ, suc, refl, Bool, true, false, String, List, [], ◌∷◌, nat_eq, string_eq, length, if◌then◌else◌,
  arith, map, keep, leb, ltb, ◌-◌,
}
use csdlpt.Prelude.Sort.{sort}
use csdlpt.Prelude.Dict
use csdlpt.Prelude.Dict.{Dict}
use csdlpt.Common.Types.{active}
use csdlpt.Strict.Failover.State.{FailoverManager, WorkerRecord, log_event, notify, alive_workers}
use csdlpt.Strict.Failover.Membership.{
  register_worker, claim, claim_all, record_of, confirm, report_all, heartbeat, heard,
  update_offsets, fail_worker, detect_from, detect_failures, adjust_timeout, watch_health,
}
use csdlpt.Strict.Failover.Reassign.{
  assign, give, assign_all, reassign_to, orphans, mark_orphaned, reassign_failed_partitions,
  cascade_to, cascading_failover, target_of, by_id, unique, partitions_of_all, not_in,
}
use csdlpt.Strict.Failover.Mirror.{Leaves, Leaves-trans}

left : {m : FailoverManager} → Leaves m m
left = record { memory = refl; disk = refl }

claim_all-Leaves : (w : String) (l : List ℕ) (m : FailoverManager) → Leaves m (claim_all w l m)
unfolding claim_all claim
claim_all-Leaves w [] m = left
claim_all-Leaves w (pid ∷ l) m =
    Leaves-trans m (claim w pid m) (claim_all w l (claim w pid m))
      (record { memory = refl; disk = refl }) (claim_all-Leaves w l (claim w pid m))

pub register-Leaves :
    (now : ℕ) (w : String) (l : List ℕ) (m : FailoverManager) → Leaves m (register_worker now w l m)
unfolding register_worker
register-Leaves now w l m =
    let m' = record m {
      workers =
          Dict.put m.workers w (record (record_of w m) { last_heartbeat = now; status = active });
    } in
    Leaves-trans m m' (claim_all w l m') (record { memory = refl; disk = refl })
      (claim_all-Leaves w l m')

confirm-Leaves :
    (w : String) (pid : ℕ) (m : FailoverManager) → Leaves m (confirm w pid (claim w pid m))
unfolding confirm claim
confirm-Leaves w pid m = record { memory = ground arith; disk = ground arith }

report_all-Leaves : (w : String) (l : List ℕ) (m : FailoverManager) → Leaves m (report_all w l m)
unfolding report_all
report_all-Leaves w [] m = left
report_all-Leaves w (pid ∷ l) m =
    Leaves-trans m (confirm w pid (claim w pid m)) (report_all w l (confirm w pid (claim w pid m)))
      (confirm-Leaves w pid m) (report_all-Leaves w l (confirm w pid (claim w pid m)))

give-Leaves :
    (logs : Bool) (now : ℕ) (t : String) (pid : ℕ) (m : FailoverManager)
    → Leaves m (give logs now t pid m)
unfolding give assign notify log_event
give-Leaves logs now t pid m = record { memory = ground arith; disk = ground arith }

assign_all-Leaves :
    (logs : Bool) (now : ℕ) (w : String) (ws : List String) (i : ℕ) (l : List ℕ)
    (m : FailoverManager)
    → Leaves m (assign_all logs now w ws i l m)
unfolding assign_all
assign_all-Leaves logs now w ws i [] m = left
assign_all-Leaves logs now w ws i (pid ∷ l) m =
    let m' = give logs now (target_of w ws i) pid m in
    Leaves-trans m m' (assign_all logs now w ws (suc i) l m')
      (give-Leaves logs now (target_of w ws i) pid m) (assign_all-Leaves logs now w ws (suc i) l m')

fail-Leaves :
    (now : ℕ) (w : String) (wr : WorkerRecord) (m : FailoverManager)
    → Leaves m (fail_worker now w wr m)
unfolding fail_worker log_event
fail-Leaves now w wr m = record { memory = ground arith; disk = ground arith }

detect_from-Leaves :
    (now : ℕ) (l : List (String × WorkerRecord)) (m : FailoverManager)
    → Leaves m (detect_from now l m).1
unfolding detect_from
detect_from-Leaves now [] m = left
detect_from-Leaves now ((w, wr) ∷ l) m =
    elim (ltb m.heartbeat_timeout (now - wr.last_heartbeat))
      as (λ b. Leaves m (detect_from now l (if b then fail_worker now w wr m else m)).1) [
        | true ↦
            Leaves-trans m (fail_worker now w wr m) (detect_from now l (fail_worker now w wr m)).1
              (fail-Leaves now w wr m) (detect_from-Leaves now l (fail_worker now w wr m))
        | false ↦ detect_from-Leaves now l m
      ]

adjust-Leaves : (now : ℕ) (m : FailoverManager) → Leaves m (adjust_timeout now m)
unfolding adjust_timeout watch_health
adjust-Leaves now m = record { memory = ground arith; disk = ground arith }

pub detect-Leaves : (now : ℕ) (m : FailoverManager) → Leaves m (detect_failures now m).1
unfolding detect_failures
detect-Leaves now m =
    Leaves-trans m (detect_from now m.workers m).1
      (adjust_timeout now (detect_from now m.workers m).1) (detect_from-Leaves now m.workers m)
      (adjust-Leaves now (detect_from now m.workers m).1)

reassign_to-Leaves :
    (now : ℕ) (alive : List String) (l : List ℕ) (m : FailoverManager)
    → Leaves m (reassign_to now alive l m).1
unfolding reassign_to
reassign_to-Leaves now [] l m = left
reassign_to-Leaves now (w ∷ ws) l m = assign_all-Leaves true now w ws 0 (sort by_id l) m

pub reassign-Leaves :
    (now : ℕ) (m : FailoverManager) → Leaves m (reassign_failed_partitions now m).1
unfolding reassign_failed_partitions
reassign-Leaves now m =
    let m' = record m { partition_state = mark_orphaned (orphans m) m.partition_state } in
    Leaves-trans m m' (reassign_to now (alive_workers m) (orphans m) m').1
      (record { memory = refl; disk = refl })
      (reassign_to-Leaves now (alive_workers m) (orphans m) m')

cascade_to-Leaves :
    (now : ℕ) (alive : List String) (l : List ℕ) (m : FailoverManager)
    → Leaves m (cascade_to now alive l m).1
unfolding cascade_to log_event
cascade_to-Leaves now [] l m = left
cascade_to-Leaves now (w ∷ ws) l m =
    let m' = record m { partition_state = mark_orphaned l m.partition_state } in
    let a = assign_all-Leaves false now w ws 0 (sort by_id (unique l)) m' in
    record { memory = a.memory; disk = a.disk }

pub cascade-Leaves :
    (now : ℕ) (l : List String) (m : FailoverManager) → Leaves m (cascading_failover now l m).1
unfolding cascading_failover
cascade-Leaves now l m =
    elim (leb (length l) 1)
      as (λ b.
        Leaves m
          (if b
            then reassign_failed_partitions now m
            else cascade_to now (map (λ p. p.0) (keep (not_in l) m.workers)) (partitions_of_all m l)
                m).1) [
                  | true ↦ reassign-Leaves now m
                  | false ↦
                      cascade_to-Leaves now (map (λ p. p.0) (keep (not_in l) m.workers))
                        (partitions_of_all m l) m
                ]

pub beat-Leaves :
    (now : ℕ) (w : String) (l : List ℕ) (offsets : List (ℕ × ℕ)) (m : FailoverManager)
    → Leaves m (heartbeat now w l offsets m)
unfolding heartbeat
beat-Leaves now w l offsets m₀ =
    let m = record m₀ { partition_offsets = update_offsets offsets m₀.partition_offsets } in
    let a = register-Leaves now w l m in
    let b = report_all-Leaves w l (heard now w m) in
    elim (Dict.has m₀.workers w)
      as (λ k.
        Leaves m₀ (if k then report_all w l (heard now w m) else register_worker now w l m)) [
          | true ↦ record { memory = b.memory; disk = b.disk }
          | false ↦ record { memory = a.memory; disk = a.disk }
        ]
