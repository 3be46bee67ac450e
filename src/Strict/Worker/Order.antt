-- ===== src/Strict/Worker/Order.antt =====
-- strict/worker.py: `pop_all_ready` takes the earliest events, in their order.
use csdlpt.Prelude.{
  ℕ, zero, suc, ◌+◌, ◌≤◌, ◌≡◌, refl, ◌∙◌, ap, arith, Bool, true, Option, none, some, List, [], ◌∷◌,
  ltb_ℤ, keep, length, All,
}
use csdlpt.Strict.Worker.Queue.{
  Item, Heapq, NoEarlier, BoundedPriorityQueue, tally, pop_min, prepend, pop_times, smaller,
  pop_all_ready,
}
use csdlpt.Strict.Worker.Conservation.{returned, Pops, pop_min-Pops, tally_all, tally-cons}

-- No item is earlier than the ones before it.
abbrev pub Ascending : List Item → Type 0
Ascending [] = Unit {0}
Ascending (x ∷ l) = NoEarlier x l × Ascending l

abbrev pub Before : List Item → List Item → Type 0
Before xs ys = All (λ x. NoEarlier x ys) xs

is_earlier : Item → Item → Bool
is_earlier x y = ltb_ℤ y.time x.time

tally-NoEarlier : (x : Item) (l : List Item) → NoEarlier x l → tally (is_earlier x) l ≡ 0
unfolding keep is_earlier
tally-NoEarlier x [] h = refl
tally-NoEarlier x (y ∷ l) h = ground (arith, tally-NoEarlier x l h.1)

NoEarlier-tally : (x : Item) (l : List Item) → tally (is_earlier x) l ≡ 0 → NoEarlier x l
unfolding keep is_earlier
NoEarlier-tally x [] h = tt
NoEarlier-tally x (y ∷ l) h = ground (arith, NoEarlier-tally x l)

-- What a run of `n` pops makes of a queue.
abbrev pub Drained : BoundedPriorityQueue → ℕ → List Item × BoundedPriorityQueue → Type 0
Drained q n r =
    ((t : Item → Bool) → tally t r.0 + tally t r.1.buffer ≡ tally t q.buffer)
    × (length r.0 ≡ n)
    × Ascending r.0
    × Before r.0 r.1.buffer

-- One more pop in front.
Drained-prepend :
    (n : ℕ) (q q' : BoundedPriorityQueue) (x : Item) (r : List Item × BoundedPriorityQueue)
    → ((t : Item → Bool) → tally t (returned (some x)) + tally t q'.buffer ≡ tally t q.buffer)
    → NoEarlier x q'.buffer
    → Drained q' n r
    → Drained q (suc n) (prepend (some x) r)
Drained-prepend n q q' x (l, q'') same first d = (
  (λ t. omega (arith, tally-cons t x l, d.0 t, same t)),
  ap suc d.1,
  (NoEarlier-tally x l (omega (arith, split)), d.2),
  (NoEarlier-tally x q''.buffer (omega (arith, split)), d.3),
)
  where
    split : tally (is_earlier x) l + tally (is_earlier x) q''.buffer ≡ 0
    split = d.0 (is_earlier x) ∙ tally-NoEarlier x q'.buffer first

module _ (heap : Heapq) (now : ℕ) where
  pop_once :
      (n : ℕ) (q : BoundedPriorityQueue) (r : Option Item × BoundedPriorityQueue)
      → suc n ≤ length q.buffer
      → Pops heap now q r
      → (n ≤ length r.1.buffer → Drained r.1 n (pop_times heap now n r.1))
      → Drained q (suc n) (prepend r.0 (pop_times heap now n r.1))
  pop_once n q (none, q') h p d = absurd (ground (arith, p.3))
  pop_once n q (some x, q') h p d =
      Drained-prepend n q q' x (pop_times heap now n q') p.0 p.1 (d (enough))
    where
      enough : n ≤ length q'.buffer
      enough = ground (
        arith,
        p.0 (λ y. true),
        tally_all q.buffer,
        tally_all q'.buffer,
        tally_all (returned (some x)),
      )

  pop_times-Drained :
      (n : ℕ) (q : BoundedPriorityQueue)
      → heap.IsHeap q.buffer
      → n ≤ length q.buffer
      → Drained q n (pop_times heap now n q)
  unfolding pop_times
  pop_times-Drained zero q h k = ((λ t. unfold keep in omega arith), refl, tt, tt)
  pop_times-Drained (suc n) q h k =
      let p = pop_min-Pops heap now q h in
      pop_once n q (pop_min heap now q) k p (pop_times-Drained n (pop_min heap now q).1 p.2)

  -- `pop_all_ready` takes as many events as asked for, or all: they come in the order of their times,
  -- none is lost or made up, and none is later than one that stays.
  pub pop_all_ready_lem :
      (batch_size : ℕ) (q : BoundedPriorityQueue) (t : Item → Bool)
      → heap.IsHeap q.buffer
      → let r = pop_all_ready heap now batch_size q in
        (tally t r.0 + tally t r.1.buffer ≡ tally t q.buffer)
        × (length r.0 ≡ smaller batch_size (length q.buffer))
        × Ascending r.0
        × Before r.0 r.1.buffer
  unfolding pop_all_ready
  pop_all_ready_lem batch_size q t h =
      let d = pop_times-Drained (smaller batch_size (length q.buffer)) q h (ground arith) in
      (d.0 t, d.1, d.2, d.3)
