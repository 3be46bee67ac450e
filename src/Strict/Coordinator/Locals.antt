-- ===== src/Strict/Coordinator/Locals.antt =====
-- strict/coordinator.py: the partitions' own watermarks under heartbeats.
use csdlpt.Prelude.{
  ℕ, ◌≡◌, refl, ◌∙◌, subst, arith, inl, inr, Bool, Option, none, some, List, [], ◌∷◌, nat_eq,
  string_eq, elem, if◌then◌else◌, map, ==_iff, ◌==◌, Bool-cases,
}
use csdlpt.Prelude.Mark.{Mark, neg_inf, ◌⊑◌, ⊑_refl, ⊑_trans, max_left, max_right}
use csdlpt.Prelude.Dict
use csdlpt.Prelude.Dict.{Dict, get-put}
use csdlpt.Common.Types.{WorkerHeartbeat}
use csdlpt.Strict.Coordinator.State.{Coordinator, PartitionInfo, persist_partition}
use csdlpt.Strict.Coordinator.Global.{refresh, update_statuses}
use csdlpt.Strict.Coordinator.Heartbeat.{report, report_partition, report_partitions}

-- A partition's watermark, -inf if it is not known.
abbrev pub local_of : Option PartitionInfo → Mark
local_of none = neg_inf
local_of (some p) = p.local_watermark

abbrev pub local : Coordinator → ℕ → Mark
local c pid = local_of (Dict.get c.partitions pid)

-- What a heartbeat's loop leaves alone.
abbrev pub SameGlobal : Coordinator → Coordinator → Type 0
SameGlobal c d = (d.W_global ≡ c.W_global) × (d.W_global_prev ≡ c.W_global_prev)

persist-SameGlobal : (pid : ℕ) (c : Coordinator) → SameGlobal c (persist_partition pid c)
unfolding persist_partition
persist-SameGlobal pid c = ground arith

persist-partitions :
    (pid : ℕ) (c : Coordinator) → (persist_partition pid c).partitions ≡ c.partitions
unfolding persist_partition
persist-partitions pid c = ground arith

report_partition-SameGlobal :
    (now : ℕ) (hb : WorkerHeartbeat) (r : ℕ × Mark) (c : Coordinator)
    → SameGlobal c (report_partition now hb r c)
unfolding report_partition
report_partition-SameGlobal now hb (pid, lw) c = persist-SameGlobal pid _

pub report_partitions-SameGlobal :
    (now : ℕ) (hb : WorkerHeartbeat) (l : List (ℕ × Mark)) (c : Coordinator)
    → SameGlobal c (report_partitions now hb l c)
unfolding report_partitions
report_partitions-SameGlobal now hb [] c = (refl, refl)
report_partitions-SameGlobal now hb (r ∷ l) c =
    let h = report_partitions-SameGlobal now hb l (report_partition now hb r c) in
    let k = report_partition-SameGlobal now hb r c in (h.0 ∙ k.0, h.1 ∙ k.1)

-- A report moves its own partition to the larger of the two watermarks, and no other.
report_partition-local :
    (now : ℕ) (hb : WorkerHeartbeat) (pid : ℕ) (lw : Mark) (c : Coordinator) (k : ℕ)
    → local (report_partition now hb (pid, lw) c) k ≡ (
        if pid == k
        then local_of (
            some (
              report now hb.worker_id pid lw
                (elem pid hb.idle_partitions)
                (Dict.get c.partitions pid)))
        else local c k)
unfolding report_partition
report_partition-local now hb pid lw c k = rw persist-partitions (
    ground (
      arith,
      get-put c.partitions pid k (
          report now hb.worker_id pid lw (elem pid hb.idle_partitions) (Dict.get c.partitions pid)),
    ))

reported_local :
    (now : ℕ) (hb : WorkerHeartbeat) (pid : ℕ) (lw : Mark) (idle : Bool) (o : Option PartitionInfo)
    → (local_of o ⊑ (report now hb.worker_id pid lw idle o).local_watermark)
      × (lw ⊑ (report now hb.worker_id pid lw idle o).local_watermark)
reported_local now hb pid lw idle none = (tt, ⊑_refl lw)
reported_local now hb pid lw idle (some p) =
    (max_left p.local_watermark lw, max_right p.local_watermark lw)

report_partition-mono :
    (now : ℕ) (hb : WorkerHeartbeat) (pid : ℕ) (lw : Mark) (c : Coordinator) (k : ℕ)
    → local c k ⊑ local (report_partition now hb (pid, lw) c) k
report_partition-mono now hb pid lw c k = rw report_partition-local (elim (Bool-cases (pid == k)) [
  | inl here ↦ rw here (
      subst
        (λ j.
          local c j
          ⊑ (report now hb.worker_id pid lw (elem pid hb.idle_partitions)
              (Dict.get c.partitions pid)).local_watermark)
        ((==_iff pid k).0 here)
        (reported_local now hb pid lw (elem pid hb.idle_partitions) (Dict.get c.partitions pid)).0)
  | inr there ↦ rw there (⊑_refl (local c k))
])

pub report_partitions-mono :
    (now : ℕ) (hb : WorkerHeartbeat) (l : List (ℕ × Mark)) (c : Coordinator) (k : ℕ)
    → local c k ⊑ local (report_partitions now hb l c) k
unfolding report_partitions
report_partitions-mono now hb [] c k = ⊑_refl (local c k)
report_partitions-mono now hb ((pid, lw) ∷ l) c k =
    ⊑_trans (local c k) (local (report_partition now hb (pid, lw) c) k) _
      (report_partition-mono now hb pid lw c k)
      (report_partitions-mono now hb l (report_partition now hb (pid, lw) c) k)

-- A reported watermark is reached.
pub report_partitions-reached :
    (now : ℕ) (hb : WorkerHeartbeat) (l : List (ℕ × Mark)) (c : Coordinator) (k : ℕ)
    → Dict.get_or (Dict.get l k) neg_inf ⊑ local (report_partitions now hb l c) k
unfolding report_partitions Dict.get
report_partitions-reached now hb [] c k = tt
report_partitions-reached now hb ((pid, lw) ∷ l) c k = elim (Bool-cases (pid == k)) [
  | inl here ↦ rw here (
      ⊑_trans lw (local (report_partition now hb (pid, lw) c) k) _
        (rw report_partition-local (
          rw here
            (reported_local now hb pid lw (elem pid hb.idle_partitions)
              (Dict.get c.partitions pid)).1))
        (report_partitions-mono now hb l (report_partition now hb (pid, lw) c) k))
  | inr there ↦
      rw there (report_partitions-reached now hb l (report_partition now hb (pid, lw) c) k)
]

get-refresh :
    (now : ℕ) (d : Dict ℕ PartitionInfo) (k : ℕ)
    → local_of (Dict.get (map (refresh now) d) k) ≡ local_of (Dict.get d k)
unfolding Dict.get
get-refresh now [] k = refl
get-refresh now ((pid, p) ∷ d) k = ground (arith, get-refresh now d k)

pub update_statuses-local :
    (now : ℕ) (c : Coordinator) (k : ℕ) → local (update_statuses now c) k ≡ local c k
unfolding update_statuses
update_statuses-local now c k = get-refresh now c.partitions k
