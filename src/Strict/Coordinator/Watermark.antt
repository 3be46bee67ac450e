-- ===== src/Strict/Coordinator/Watermark.antt =====
-- strict/coordinator.py: the global watermark never goes back and never passes a partition that
-- counts; nor does a partition's own watermark go back.
use csdlpt.Prelude.{
  ℕ, ◌≡◌, ◌∙◌, ap, arith, ◌⊎◌, inl, inr, true, false, some, nat_eq, string_eq, Bool-cases,
}
use csdlpt.Prelude.Mark.{neg_inf, ◌⊑◌, ⊑_refl}
use csdlpt.Prelude.Dict
use csdlpt.Prelude.Dict.{Dict, get-put}
use csdlpt.Common.Types.{WorkerHeartbeat}
use csdlpt.Strict.Coordinator.Locals.{
  local, local_of, SameGlobal, report_partitions-SameGlobal, report_partitions-mono,
  report_partitions-reached, update_statuses-local,
}
use csdlpt.Strict.Coordinator.State.{Coordinator, PartitionInfo}
use csdlpt.Strict.Coordinator.Global.{
  update_statuses, counts, compute_watermark, compute_skew, skew_from, compute_lag,
  compute_diagnosis, compute_global,
}
use csdlpt.Strict.Coordinator.Heartbeat.{
  is_stale, report_partitions, note_worker, take_heartbeat, receive_heartbeat,
}
use csdlpt.Strict.Coordinator.Minimum.{
  compute_watermark-bound, compute_watermark-mono, compute_watermark-partitions,
}

-- The later steps of `_compute_global` leave the watermark and the partitions alone.
abbrev SameWatermark : Coordinator → Coordinator → Type 0
SameWatermark c d =
    (d.W_global ≡ c.W_global) × (d.W_global_prev ≡ c.W_global_prev) × (d.partitions ≡ c.partitions)

compute_skew-SameWatermark : (c : Coordinator) → SameWatermark c (compute_skew c)
unfolding compute_skew skew_from
compute_skew-SameWatermark c = ground arith

compute_global-SameWatermark :
    (now : ℕ) (c : Coordinator) → SameWatermark (compute_watermark c) (compute_global now c)
unfolding compute_global compute_lag compute_diagnosis
compute_global-SameWatermark now c = compute_skew-SameWatermark (compute_watermark c)

-- The state when `_compute_global` begins.
abbrev before_compute : ℕ → WorkerHeartbeat → Coordinator → Coordinator
before_compute now hb c =
    update_statuses now (report_partitions now hb hb.partitions (note_worker now hb c))

before_compute-SameGlobal :
    (now : ℕ) (hb : WorkerHeartbeat) (c : Coordinator) → SameGlobal c (before_compute now hb c)
unfolding update_statuses
before_compute-SameGlobal now hb c =
    unfold note_worker in report_partitions-SameGlobal now hb hb.partitions (note_worker now hb c)

-- The steps around the minimum, for any coordinators `b` before it and `d` at the end.
mono_around :
    (c b d : Coordinator)
    → SameGlobal c b
    → SameWatermark (compute_watermark b) d
    → c.W_global ⊑ c.W_global_prev
    → (c.W_global ⊑ d.W_global) × (d.W_global ⊑ d.W_global_prev)
mono_around c b d s t h =
    let computed = compute_watermark-mono b (rw (s.0, s.1) h) in
    (rw (t.0, ← s.0) computed.0, rw (t.0, t.1) computed.1)

bound_around :
    (c b d : Coordinator) (pid : ℕ) (p : PartitionInfo)
    → SameGlobal c b
    → SameWatermark (compute_watermark b) d
    → Dict.get d.partitions pid ≡ some p
    → counts p ≡ true
    → (d.W_global ≡ c.W_global_prev) ⊎ (d.W_global ⊑ p.local_watermark)
bound_around c b d pid p s t h k =
    rw (t.0, ← s.1)
      (compute_watermark-bound b pid p (rw (t.2 ∙ compute_watermark-partitions b) at h) k)

take_heartbeat-mono :
    (now : ℕ) (hb : WorkerHeartbeat) (c : Coordinator)
    → c.W_global ⊑ c.W_global_prev
    → (c.W_global ⊑ (take_heartbeat now hb c).W_global)
      × ((take_heartbeat now hb c).W_global ⊑ (take_heartbeat now hb c).W_global_prev)
unfolding take_heartbeat
take_heartbeat-mono now hb c =
    mono_around c (before_compute now hb c) (take_heartbeat now hb c)
      (before_compute-SameGlobal now hb c)
      (compute_global-SameWatermark now (before_compute now hb c))

-- The global watermark never goes back: a heartbeat, fenced off or not, leaves it where it was or
-- moves it on. The condition, that it is not ahead of `W_global_prev`, holds again afterwards.
pub receive_heartbeat-mono :
    (now : ℕ) (hb : WorkerHeartbeat) (c : Coordinator)
    → c.W_global ⊑ c.W_global_prev
    → (c.W_global ⊑ (receive_heartbeat now hb c).W_global)
      × ((receive_heartbeat now hb c).W_global ⊑ (receive_heartbeat now hb c).W_global_prev)
unfolding receive_heartbeat
receive_heartbeat-mono now hb c h =
    elim (Bool-cases (is_stale hb.fencing_token (Dict.get c.fencing_tokens hb.worker_id))) [
      | inl stale ↦ rw stale (⊑_refl c.W_global, h)
      | inr fresh ↦ rw fresh (take_heartbeat-mono now hb c h)
    ]

take_heartbeat-bound :
    (now : ℕ) (hb : WorkerHeartbeat) (c : Coordinator) (pid : ℕ) (p : PartitionInfo)
    → Dict.get (take_heartbeat now hb c).partitions pid ≡ some p
    → counts p ≡ true
    → ((take_heartbeat now hb c).W_global ≡ c.W_global_prev)
      ⊎ ((take_heartbeat now hb c).W_global ⊑ p.local_watermark)
unfolding take_heartbeat
take_heartbeat-bound now hb c pid p =
    bound_around c (before_compute now hb c) (take_heartbeat now hb c) pid p
      (before_compute-SameGlobal now hb c)
      (compute_global-SameWatermark now (before_compute now hb c))

-- The global watermark is safe: after a heartbeat that is not fenced off `W_global` is either the
-- `W_global_prev` of before, or at most the local watermark of every partition that is neither
-- failed nor temporarily idle.
pub receive_heartbeat-bound :
    (now : ℕ) (hb : WorkerHeartbeat) (c : Coordinator) (pid : ℕ) (p : PartitionInfo)
    → is_stale hb.fencing_token (Dict.get c.fencing_tokens hb.worker_id) ≡ false
    → Dict.get (receive_heartbeat now hb c).partitions pid ≡ some p
    → counts p ≡ true
    → ((receive_heartbeat now hb c).W_global ≡ c.W_global_prev)
      ⊎ ((receive_heartbeat now hb c).W_global ⊑ p.local_watermark)
unfolding receive_heartbeat
receive_heartbeat-bound now hb c pid p fresh h k =
    rw fresh (take_heartbeat-bound now hb c pid p (rw fresh at h) k)

take_heartbeat-local :
    (now : ℕ) (hb : WorkerHeartbeat) (c : Coordinator) (pid : ℕ)
    → local (take_heartbeat now hb c) pid
      ≡ local (report_partitions now hb hb.partitions (note_worker now hb c)) pid
unfolding take_heartbeat
take_heartbeat-local now hb c pid =
    ap (λ (d : Dict ℕ PartitionInfo). local_of (Dict.get d pid))
      ((compute_global-SameWatermark now (before_compute now hb c)).2
        ∙ compute_watermark-partitions (before_compute now hb c))
    ∙ update_statuses-local now (report_partitions now hb hb.partitions (note_worker now hb c)) pid

-- A heartbeat that is not fenced off takes no partition's watermark back, and brings each partition
-- that it reports to the reported watermark at least.
pub receive_heartbeat-local :
    (now : ℕ) (hb : WorkerHeartbeat) (c : Coordinator) (pid : ℕ)
    → is_stale hb.fencing_token (Dict.get c.fencing_tokens hb.worker_id) ≡ false
    → (local c pid ⊑ local (receive_heartbeat now hb c) pid)
      × (Dict.get_or (Dict.get hb.partitions pid) neg_inf ⊑ local (receive_heartbeat now hb c) pid)
unfolding receive_heartbeat
receive_heartbeat-local now hb c pid fresh =
    rw (fresh, take_heartbeat-local)
      (
        unfold note_worker in
            report_partitions-mono now hb hb.partitions (note_worker now hb c) pid,
        report_partitions-reached now hb hb.partitions (note_worker now hb c) pid,
      )
