-- ===== src/Strict/Failover/Reassign.antt =====
-- strict/failover.py: the partitions of failed workers go to the others, in turn.
use csdlpt.Prelude.{
  ℕ, zero, suc, ◌%◌, Bool, true, false, not, ◌&&◌, String, Option, none, some, List, [], ◌∷◌, ◌++◌,
  ℤ, pos, nat_eq, string_eq, elem, leb, if◌then◌else◌, length, keep, map,
}
use csdlpt.Prelude.Dict
use csdlpt.Prelude.Dict.{Dict}
use csdlpt.Prelude.Sort.{sort}
use csdlpt.Common.Types.{PartitionState, reassigning, orphaned, paused}
use csdlpt.Strict.Failover.State.{
  FailoverManager, WorkerRecord, recovery, partition_reassigned, log_event, notify, owns,
  update_worker, alive_workers, add_partition,
}
use csdlpt.Strict.Failover.Membership.{is_state, is_failed}

abbrev pub is_gone : Option WorkerRecord → Bool
is_gone none = true
is_gone (some wr) = is_failed wr

-- An owner that is unknown or failed, and no reassignment under way.
unfoldable pub is_orphan : FailoverManager → ℕ × String → Bool
is_orphan m (pid, owner) =
    is_gone (Dict.get m.workers owner)
    && not (is_state reassigning (Dict.get m.partition_state pid))

unfoldable pub orphans : FailoverManager → List ℕ
unfolding is_orphan
orphans m = map (λ p. p.0) (keep (is_orphan m) m.partition_owner)

unfoldable pub mark_orphaned : List ℕ → Dict ℕ PartitionState → Dict ℕ PartitionState
mark_orphaned [] d = d
mark_orphaned (pid ∷ l) d = mark_orphaned l (Dict.put d pid orphaned)

-- `alive[n]`, where `n` is less than the length
unfoldable pub pick : String → List String → ℕ → String
pick d [] n = d
pick d (w ∷ l) zero = w
pick d (w ∷ l) (suc n) = pick d l n

abbrev pub by_id : ℕ → ℤ
by_id pid = pos pid

-- One partition is given to a worker.
unfoldable pub assign : ℕ → String → FailoverManager → FailoverManager
unfolding notify
assign pid target m = notify pid recovery (record m {
  partition_state = Dict.put m.partition_state pid reassigning;
  partition_owner = Dict.put m.partition_owner pid target;
  pending_reassignments = Dict.put m.pending_reassignments pid target;
  workers = update_worker (owns pid) target m.workers;
})

-- `target = alive[i % len(alive)]`; `first` is alive[0].
abbrev pub target_of : String → List String → ℕ → String
target_of first alive i = pick first (first ∷ alive) (i % length (first ∷ alive))

-- One turn of the loop.
unfoldable pub give : Bool → ℕ → String → ℕ → FailoverManager → FailoverManager
unfolding assign log_event
give logs now t pid m =
    if logs
    then log_event now partition_reassigned t (pid ∷ []) (assign pid t m)
    else assign pid t m

-- The loop over the sorted partitions, and the reassignments that it returns.
unfoldable pub assign_all :
    Bool → ℕ → String → List String → ℕ → List ℕ → FailoverManager → FailoverManager
unfolding give
assign_all logs now first alive i [] m = m
assign_all logs now first alive i (pid ∷ l) m =
    assign_all logs now first alive (suc i) l (give logs now (target_of first alive i) pid m)

unfoldable pub reassignments : String → List String → ℕ → List ℕ → Dict ℕ String
reassignments first alive i [] = []
reassignments first alive i (pid ∷ l) =
    (pid, target_of first alive i) ∷ reassignments first alive (suc i) l

unfoldable pub reassign_to :
    ℕ → List String → List ℕ → FailoverManager → Dict ℕ String × FailoverManager
unfolding assign_all reassignments
reassign_to now [] l m = ([], m)
reassign_to now (w ∷ ws) l m =
    (reassignments w ws 0 (sort by_id l), assign_all true now w ws 0 (sort by_id l) m)

-- With no orphan or no worker the states are marked, and nothing else is done.
unfoldable pub reassign_failed_partitions : ℕ → FailoverManager → Dict ℕ String × FailoverManager
unfolding orphans mark_orphaned reassign_to
reassign_failed_partitions now m =
    reassign_to now (alive_workers m) (orphans m)
      (record m { partition_state = mark_orphaned (orphans m) m.partition_state })

abbrev pub not_in : List String → String × WorkerRecord → Bool
not_in failed_workers p = not (elem p.0 failed_workers)

-- The partitions of one failed worker that are not paused.
unfoldable pub partitions_of : FailoverManager → String → List ℕ
partitions_of m w = elim (Dict.get m.workers w) [
  | none ↦ []
  | some wr ↦
      keep (λ pid. not (is_state paused (Dict.get m.partition_state pid))) wr.assigned_partitions
]

unfoldable pub partitions_of_all : FailoverManager → List String → List ℕ
unfolding partitions_of
partitions_of_all m [] = []
partitions_of_all m (w ∷ l) = partitions_of m w ++ partitions_of_all m l

-- `set(l)`
unfoldable pub unique : List ℕ → List ℕ
unfolding add_partition
unique [] = []
unique (pid ∷ l) = add_partition pid (unique l)

unfoldable pub cascade_to :
    ℕ → List String → List ℕ → FailoverManager → Dict ℕ String × FailoverManager
unfolding assign_all reassignments unique
cascade_to now [] l m = ([], m)
cascade_to now (w ∷ ws) l m =
    let pids = sort by_id (unique l) in
    let given = reassignments w ws 0 pids in
    (
      given,
      log_event now partition_reassigned "" (Dict.keys given) (
          assign_all false now w ws 0 pids
            (record m { partition_state = mark_orphaned l m.partition_state })),
    )

unfoldable pub cascading_failover :
    ℕ → List String → FailoverManager → Dict ℕ String × FailoverManager
unfolding reassign_failed_partitions cascade_to partitions_of_all
cascading_failover now failed_workers m =
    if leb (length failed_workers) 1
    then reassign_failed_partitions now m
    else cascade_to now (map (λ p. p.0) (keep (not_in failed_workers) m.workers))
        (partitions_of_all m failed_workers) m
