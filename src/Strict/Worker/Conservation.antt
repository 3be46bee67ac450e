-- ===== src/Strict/Worker/Conservation.antt =====
-- strict/worker.py: the queue loses no event, keeps its bound, and gives the earliest events first.
use csdlpt.Prelude.{
  ℕ, suc, ◌+◌, ◌<◌, ◌≡◌, refl, sym, ◌∙◌, ap, arith, inl, inr, Bool, true, Option, none, some, List,
  [], ◌∷◌, leb, keep, length, Bool-cases,
}
use csdlpt.Common.Types.{LogEvent}
use csdlpt.Strict.Worker.Queue.{
  Item, Heapq, Popped, NoEarlier, BoundedPriorityQueue, tally, item_of, popped, pop_min, push,
  smaller,
}

pub tally_all : (l : List Item) → tally (λ x. true) l ≡ length l
unfolding keep
tally_all [] = refl
tally_all (x ∷ l) = ap suc (tally_all l)

-- The item that a call returned, as a list.
abbrev pub returned : Option Item → List Item
returned none = []
returned (some x) = x ∷ []

pub tally-cons :
    (t : Item → Bool) (x : Item) (l : List Item)
    → tally t (x ∷ l) ≡ tally t (returned (some x)) + tally t l
unfolding keep
tally-cons t x l = ground arith

abbrev pub NoneEarlier : Option Item → List Item → Type 0
NoneEarlier none l = Unit {0}
NoneEarlier (some x) l = NoEarlier x l

module _ (heap : Heapq) (now : ℕ) where
  -- What `_pop_min` does to a queue that is a heap.
  abbrev pub Pops : BoundedPriorityQueue → Option Item × BoundedPriorityQueue → Type 0
  Pops q r =
      ((t : Item → Bool) → tally t (returned r.0) + tally t r.1.buffer ≡ tally t q.buffer)
      × NoneEarlier r.0 r.1.buffer
      × heap.IsHeap r.1.buffer
      × (length (returned r.0) ≡ smaller 1 (length q.buffer))

  popped-Pops :
      (q : BoundedPriorityQueue) (o : Option (Item × List Item))
      → heap.IsHeap q.buffer
      → Popped heap.IsHeap q.buffer o
      → Pops q (popped heap now q o)
  popped-Pops q none h p = ((λ t. unfold keep in omega arith), tt, h, rw p refl)
  popped-Pops q (some (x, rest)) h p = (
    (λ t. sym (tally-cons t x rest) ∙ p.0 t),
    p.1,
    p.2,
    ground (arith, tally_all q.buffer, tally_all (x ∷ rest), p.0 (λ y. true)),
  )

  pub pop_min-Pops : (q : BoundedPriorityQueue) → heap.IsHeap q.buffer → Pops q (pop_min heap now q)
  unfolding pop_min
  pop_min-Pops q h = popped-Pops q (heap.heappop q.buffer) h (heap.heappop-Popped q.buffer h)

  -- `push` loses nothing: the new item and those of the buffer stand in the buffer afterwards, but for
  -- one that may be returned, which is then an earliest of them all. A buffer that is shorter than
  -- `maxsize`, and a heap, is so again.
  pub push_lem :
      (ev : LogEvent) (q : BoundedPriorityQueue) (t : Item → Bool)
      → heap.IsHeap q.buffer
      → length q.buffer < q.maxsize
      → let r = push heap now ev q in
        (tally t (returned r.0) + tally t r.1.buffer ≡ tally t (item_of ev q ∷ q.buffer))
        × NoneEarlier r.0 r.1.buffer
        × heap.IsHeap r.1.buffer
        × (length r.1.buffer < q.maxsize)
  unfolding push
  push_lem ev q t h short = elim (Bool-cases (leb q.maxsize (length pushed.buffer))) [
    | inl full ↦
        rw full (ap_tally t ∙ heap.tally-heappush t (item_of ev q) q.buffer, p.1, p.2, shorter)
    | inr room ↦ rw room (
      unfold keep in omega (arith, heap.tally-heappush t (item_of ev q) q.buffer),
      tt,
      is_heap,
      ground arith,
    )
  ]
    where
      pushed : BoundedPriorityQueue
      pushed = record q { buffer = heap.heappush (item_of ev q) q.buffer; counter = q.counter + 1 }

      is_heap : heap.IsHeap pushed.buffer
      is_heap = heap.heappush-IsHeap (item_of ev q) q.buffer h

      p : Pops pushed (pop_min heap now pushed)
      p = pop_min-Pops pushed is_heap

      ap_tally :
          (t : Item → Bool)
          → tally t (returned (pop_min heap now pushed).0)
              + tally t (pop_min heap now pushed).1.buffer
            ≡ tally t pushed.buffer
      ap_tally = p.0

      grown : length pushed.buffer ≡ suc (length q.buffer)
      grown =
          sym (tally_all pushed.buffer)
          ∙ heap.tally-heappush (λ x. true) (item_of ev q) q.buffer
          ∙ tally_all (item_of ev q ∷ q.buffer)

      shorter : length (pop_min heap now pushed).1.buffer < q.maxsize
      shorter = ground (
        arith,
        grown,
        p.3,
        p.0 (λ x. true),
        tally_all pushed.buffer,
        tally_all (pop_min heap now pushed).1.buffer,
        tally_all (returned (pop_min heap now pushed).0),
      )
