-- ===== src/Heuristic/Aggregator/Progress.antt =====
-- heuristic/aggregator.py: the global watermark never goes back, nor does a restart lose it.
use csdlpt.Prelude.{
  ℕ, ◌≡◌, refl, ◌∙◌, arith, Bool, true, false, String, Option, none, some, List, [], ◌∷◌, nat_eq,
}
use csdlpt.Prelude.Mark
use csdlpt.Prelude.Mark.{Mark, neg_inf, ◌⊑◌, ⊑_refl, ⊑_trans, max_left}
use csdlpt.Heuristic.Aggregator.{
  HeuristicAggregator, PartitionWatermark, Disk, persist_partition, load_from_store, init,
  update_statuses, minimum, global_from, compute_global, receive_worker_watermark, persist_all,
  save_state, on_disk, put_meta,
}

global_from-mono :
    (l : List Mark) (a : HeuristicAggregator)
    → a.W_global_h ⊑ a.W_global_h_prev
    → (a.W_global_h ⊑ (global_from l a).W_global_h)
      × ((global_from l a).W_global_h ⊑ (global_from l a).W_global_h_prev)
unfolding global_from
global_from-mono [] a h = (⊑_refl a.W_global_h, h)
global_from-mono (x ∷ l) a h = (
  ⊑_trans a.W_global_h a.W_global_h_prev _ h (max_left a.W_global_h_prev (minimum x l)),
  ⊑_refl (Mark.max a.W_global_h_prev (minimum x l)),
)

-- The global watermark of the heuristic branch never goes back under a report of a worker, if it is not
-- ahead of `W_global_h_prev`, and that condition holds again afterwards.
pub receive_worker_watermark-mono :
    (now : ℕ) (worker_id : String) (pid : ℕ) (W_h : Mark) (a : HeuristicAggregator)
    → a.W_global_h ⊑ a.W_global_h_prev
    → (a.W_global_h ⊑ (receive_worker_watermark now worker_id pid W_h a).W_global_h)
      × ((receive_worker_watermark now worker_id pid W_h a).W_global_h
          ⊑ (receive_worker_watermark now worker_id pid W_h a).W_global_h_prev)
unfolding receive_worker_watermark compute_global update_statuses persist_partition
receive_worker_watermark-mono now worker_id pid W_h a h = global_from-mono _ _ h

unfoldable pub has_store : HeuristicAggregator → Bool
has_store a = elim a.store [ none ↦ false | some d ↦ true ]

persist_all-has_store :
    (l : List (ℕ × PartitionWatermark)) (a : HeuristicAggregator)
    → has_store (persist_all l a) ≡ has_store a
unfolding persist_all persist_partition has_store
persist_all-has_store [] a = refl
persist_all-has_store ((pid, p) ∷ l) a =
    persist_all-has_store l (persist_partition pid a) ∙ ground arith

opened :
    (d : Disk) (W : Mark)
    → d.state ≡ some W
    → ((init (some d)).W_global_h ≡ W) × ((init (some d)).W_global_h_prev ≡ W)
unfolding init load_from_store
opened d W h = ground arith

saved :
    (W : Mark) (b : HeuristicAggregator)
    → has_store b ≡ true
    → let c = init (on_disk (put_meta W) b.store) in (c.W_global_h ≡ W) × (c.W_global_h_prev ≡ W)
unfolding has_store
saved W b h = disk b.store refl
  where
    disk :
        (o : Option Disk)
        → b.store ≡ o
        → let c = init (on_disk (put_meta W) o) in (c.W_global_h ≡ W) × (c.W_global_h_prev ≡ W)
    disk none e = absurd (ground (arith, e))
    disk (some d) e = opened (put_meta W d) W refl

-- A restart does not take it back: an aggregator with a store that saves its state, and is opened
-- again on what the store then holds, has the same global watermark, which later reports cannot lower.
pub save_state-init :
    (a : HeuristicAggregator)
    → has_store a ≡ true
    → let b = init (save_state a).store in
      (b.W_global_h ≡ a.W_global_h) × (b.W_global_h_prev ≡ a.W_global_h)
unfolding save_state
save_state-init a h =
    saved a.W_global_h (persist_all a.partitions file)
      (persist_all-has_store a.partitions file ∙ (unfold has_store in h))
  where
    file : HeuristicAggregator
    file = record a {
      state_file = some (record { W_global_h = a.W_global_h; partitions = a.partitions });
    }
