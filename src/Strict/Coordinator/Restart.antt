-- ===== src/Strict/Coordinator/Restart.antt =====
-- strict/coordinator.py: what of the coordinator's state outlives it on the disk.
use csdlpt.Prelude.{
  ℕ, ◌≡◌, refl, ◌∙◌, arith, string_eq, nat_eq, inl, inr, true, Option, none, List, [], ◌∷◌, ℤ,
  Bool-cases,
}
use csdlpt.Prelude.Mark.{Mark, neg_inf}
use csdlpt.Prelude.Dict
use csdlpt.Common.Types.{WorkerHeartbeat}
use csdlpt.Strict.Coordinator.State.{Coordinator, Disk, StateFile, persist_partition}
use csdlpt.Strict.Coordinator.Global.{
  update_statuses, compute_watermark, global_from, compute_skew, skew_from, compute_lag,
  compute_diagnosis, compute_global,
}
use csdlpt.Strict.Coordinator.Heartbeat.{
  is_stale, report_partition, report_partitions, note_worker, take_heartbeat, receive_heartbeat,
}
use csdlpt.Strict.Coordinator.Persist.{
  init, load_from_store, save_state, checkpoint, persist_state, close, load_state,
}

pub data Call : Type 0 where
  receives : WorkerHeartbeat → Call
  checkpoints : Call
  loads : Option StateFile → Call
  closes : Call

unfoldable pub apply_call : ℕ → Call → Coordinator → Coordinator
apply_call now (receives hb) c = receive_heartbeat now hb c
apply_call now checkpoints c = checkpoint c
apply_call now (loads file) c = (load_state now file c).1
apply_call now closes c = close c

unfoldable pub run : List (ℕ × Call) → Coordinator → Coordinator
run [] c = c
run ((now, k) ∷ l) c = run l (apply_call now k c)

persist-state : (pid : ℕ) (c : Coordinator) → (persist_partition pid c).disk.state ≡ c.disk.state
unfolding persist_partition
persist-state pid c = ground arith

report_partitions-state :
    (now : ℕ) (hb : WorkerHeartbeat) (l : List (ℕ × Mark)) (c : Coordinator)
    → (report_partitions now hb l c).disk.state ≡ c.disk.state
unfolding report_partitions report_partition
report_partitions-state now hb [] c = refl
report_partitions-state now hb ((pid, lw) ∷ l) c =
    report_partitions-state now hb l (report_partition now hb (pid, lw) c) ∙ persist-state pid _

global_from-disk : (l : List Mark) (c : Coordinator) → (global_from l c).disk ≡ c.disk
unfolding global_from
global_from-disk [] c = refl
global_from-disk (x ∷ l) c = refl

compute_skew-disk : (c : Coordinator) → (compute_skew c).disk ≡ c.disk
unfolding compute_skew skew_from
compute_skew-disk c = ground arith

compute_global-disk : (now : ℕ) (c : Coordinator) → (compute_global now c).disk ≡ c.disk
unfolding compute_global compute_lag compute_diagnosis compute_watermark
compute_global-disk now c = compute_skew-disk (compute_watermark c) ∙ global_from-disk _ c

receive_heartbeat-state :
    (now : ℕ) (hb : WorkerHeartbeat) (c : Coordinator)
    → (receive_heartbeat now hb c).disk.state ≡ c.disk.state
unfolding receive_heartbeat take_heartbeat update_statuses note_worker
receive_heartbeat-state now hb c =
    elim (Bool-cases (is_stale hb.fencing_token (Dict.get c.fencing_tokens hb.worker_id))) [
      | inl stale ↦ rw stale refl
      | inr fresh ↦ rw (fresh, compute_global-disk) (report_partitions-state now hb hb.partitions _)
    ]

apply_call-state :
    (now : ℕ) (k : Call) (c : Coordinator) → (apply_call now k c).disk.state ≡ c.disk.state
unfolding apply_call checkpoint save_state close persist_state load_state
apply_call-state now (receives hb) c = receive_heartbeat-state now hb c
apply_call-state now checkpoints c = refl
apply_call-state now (loads file) c = ground arith
apply_call-state now closes c = unfold close in refl

run-state : (l : List (ℕ × Call)) (c : Coordinator) → (run l c).disk.state ≡ c.disk.state
unfolding run
run-state [] c = refl
run-state ((now, k) ∷ l) c = run-state l (apply_call now k c) ∙ apply_call-state now k c

opened :
    (delta : ℤ) (d : Disk)
    → d.state ≡ none
    → ((init delta true d).term ≡ 0) × ((init delta true d).W_global ≡ neg_inf)
unfolding init load_from_store
opened delta d h = rw h (refl, refl)

init-state : (delta : ℤ) (d : Disk) → d.state ≡ none → (init delta true d).disk.state ≡ none
unfolding init load_from_store
init-state delta d h = ground arith

close-state : (c : Coordinator) → (close c).disk.state ≡ c.disk.state
unfolding close apply_call
close-state c = apply_call-state 0 closes c

-- `close` drops the store before the lines that would write the term and the watermark to it. After
-- any calls on a disk that holds no such state, and a last `close`, a coordinator that is opened on
-- what the disk then holds begins again with the term 0 and no global watermark.
pub run_forgets :
    (delta delta' : ℤ) (disk : Disk) (l : List (ℕ × Call))
    → disk.state ≡ none
    → let c = init delta' true (close (run l (init delta true disk))).disk in
      (c.term ≡ 0) × (c.W_global ≡ neg_inf)
run_forgets delta delta' disk l none_yet =
    opened delta' (close (run l (init delta true disk))).disk (
      close-state (run l (init delta true disk))
      ∙ run-state l (init delta true disk)
      ∙ init-state delta disk none_yet)
