-- ===== src/Strict/Coordinator/Minimum.antt =====
-- strict/coordinator.py: the minimum that `_compute_global` takes over the partitions that count.
use csdlpt.Prelude.{
  ℕ, ◌≡◌, refl, sym, subst, arith, ◌⊎◌, inl, inr, Bool, true, false, some, List, [], ◌∷◌, nat_eq,
  string_eq, map, keep, All, ◌==◌, Bool-cases,
}
use csdlpt.Prelude.Mark
use csdlpt.Prelude.Mark.{
  Mark, neg_inf, at, ◌⊑◌, ⊑_refl, ⊑_trans, max_left, max_right, max_cases, min_left, min_right,
}
use csdlpt.Prelude.Dict
use csdlpt.Prelude.Dict.{Dict, get-put}
use csdlpt.Strict.Coordinator.State.{Coordinator, PartitionInfo}
use csdlpt.Strict.Coordinator.Global.{
  counts, minimum, active_watermarks, global_from, compute_watermark,
}

pub minimum-le : (m : Mark) (xs : List Mark) → minimum m xs ⊑ m
unfolding minimum
minimum-le m [] = ⊑_refl m
minimum-le m (x ∷ xs) = ⊑_trans _ (Mark.min m x) m (minimum-le (Mark.min m x) xs) (min_left m x)

pub minimum-le-All : (m : Mark) (xs : List Mark) → All (λ x. minimum m xs ⊑ x) xs
unfolding minimum
minimum-le-All m [] = tt
minimum-le-All m (x ∷ xs) = (
  ⊑_trans _ (Mark.min m x) x (minimum-le (Mark.min m x) xs) (min_right m x),
  minimum-le-All (Mark.min m x) xs,
)

bound_of_kept :
    (W : Mark) (ps : List PartitionInfo) (q : PartitionInfo)
    → All (λ x. W ⊑ x) (map (λ p. p.local_watermark) (keep counts (q ∷ ps)))
    → (All (λ x. W ⊑ x) (map (λ p. p.local_watermark) (keep counts ps)))
      × ((counts q ≡ false) ⊎ (W ⊑ q.local_watermark))
unfolding keep
bound_of_kept W ps q a = split (counts q) refl (unfold keep in a)
  where
    split :
        (b : Bool)
        → counts q ≡ b
        → All (λ x. W ⊑ x) (map (λ p. p.local_watermark) (keep counts (q ∷ ps)))
        → (All (λ x. W ⊑ x) (map (λ p. p.local_watermark) (keep counts ps)))
          × ((counts q ≡ false) ⊎ (W ⊑ q.local_watermark))
    split true e h = let r = rw (e, keep) at h in (r.1, inr r.0)
    split false e h = (rw (e, keep) at h, inl e)

-- What bounds each watermark that counts bounds that of each partition that counts.
bound_of_active :
    (W : Mark) (d : Dict ℕ PartitionInfo) (pid : ℕ) (p : PartitionInfo)
    → All (λ x. W ⊑ x) (active_watermarks d)
    → Dict.get d pid ≡ some p
    → counts p ≡ true
    → W ⊑ p.local_watermark
unfolding active_watermarks Dict.get
bound_of_active W [] pid p a h c = cc
bound_of_active W ((k, q) ∷ d) pid p a h c = elim (Bool-cases (k == pid)) [
  | inl here ↦ found (bound_of_kept W (Dict.values d) q a).1 (ground arith)
  | inr there ↦ bound_of_active W d pid p (bound_of_kept W (Dict.values d) q a).0 (ground arith) c
]
  where
    found : (counts q ≡ false) ⊎ (W ⊑ q.local_watermark) → q ≡ p → W ⊑ p.local_watermark
    found (inl out) e = absurd (cc)
    found (inr b) e = subst (λ (r : PartitionInfo). W ⊑ r.local_watermark) e b

global_from-mono :
    (l : List Mark) (c : Coordinator)
    → c.W_global ⊑ c.W_global_prev
    → (c.W_global ⊑ (global_from l c).W_global)
      × ((global_from l c).W_global ⊑ (global_from l c).W_global_prev)
unfolding global_from
global_from-mono [] c h = (⊑_refl c.W_global, h)
global_from-mono (x ∷ xs) c h = (
  ⊑_trans c.W_global c.W_global_prev _ h (max_left c.W_global_prev (minimum x xs)),
  ⊑_refl (Mark.max c.W_global_prev (minimum x xs)),
)

-- The new watermark is the old one, or it bounds no watermark of the list from above.
global_from-bound :
    (x : Mark) (xs : List Mark) (c : Coordinator)
    → ((global_from (x ∷ xs) c).W_global ≡ c.W_global_prev)
      ⊎ (All (λ y. (global_from (x ∷ xs) c).W_global ⊑ y) (x ∷ xs))
unfolding global_from
global_from-bound x xs c = pick (max_cases c.W_global_prev (minimum x xs))
  where
    W : Mark
    W = Mark.max c.W_global_prev (minimum x xs)

    pick :
        (W ≡ c.W_global_prev) ⊎ (W ≡ minimum x xs)
        → (W ≡ c.W_global_prev) ⊎ (All (λ y. W ⊑ y) (x ∷ xs))
    pick (inl e) = inl e
    pick (inr e) = inr (
        subst (λ (m : Mark). All (λ y. m ⊑ y) (x ∷ xs)) (sym e)
          (minimum-le x xs, minimum-le-All x xs))

pub compute_watermark-bound :
    (c : Coordinator) (pid : ℕ) (p : PartitionInfo)
    → Dict.get c.partitions pid ≡ some p
    → counts p ≡ true
    → ((compute_watermark c).W_global ≡ c.W_global_prev)
      ⊎ ((compute_watermark c).W_global ⊑ p.local_watermark)
unfolding compute_watermark
compute_watermark-bound c pid p h k = go (active_watermarks c.partitions) refl
  where
    go :
        (l : List Mark)
        → active_watermarks c.partitions ≡ l
        → ((global_from l c).W_global ≡ c.W_global_prev)
          ⊎ ((global_from l c).W_global ⊑ p.local_watermark)
    go [] e = inr (
        bound_of_active c.W_global c.partitions pid p
          (subst (λ (l : List Mark). All (λ y. c.W_global ⊑ y) l) (sym e) tt) h k)
    go (x ∷ xs) e = bounded (global_from-bound x xs c)
      where
        W : Mark
        W = (global_from (x ∷ xs) c).W_global

        bounded :
            (W ≡ c.W_global_prev) ⊎ (All (λ y. W ⊑ y) (x ∷ xs))
            → (W ≡ c.W_global_prev) ⊎ (W ⊑ p.local_watermark)
        bounded (inl s) = inl s
        bounded (inr a) = inr (
            bound_of_active W c.partitions pid p
              (subst (λ (l : List Mark). All (λ y. W ⊑ y) l) (sym e) a) h k)

pub compute_watermark-mono :
    (c : Coordinator)
    → c.W_global ⊑ c.W_global_prev
    → (c.W_global ⊑ (compute_watermark c).W_global)
      × ((compute_watermark c).W_global ⊑ (compute_watermark c).W_global_prev)
unfolding compute_watermark
compute_watermark-mono c = global_from-mono (active_watermarks c.partitions) c

pub compute_watermark-partitions :
    (c : Coordinator) → (compute_watermark c).partitions ≡ c.partitions
unfolding compute_watermark global_from
compute_watermark-partitions c = ground arith
