-- ===== src/Strict/Worker/SortedHeap.antt =====
-- strict/worker.py: a list that is kept sorted has what the queue asks of heapq.
use csdlpt.Prelude.{◌≡◌, refl, arith, Bool, Option, none, some, List, [], ◌∷◌, ◌≤ℤ◌, keep}
use csdlpt.Prelude.Sort.{insert}
use csdlpt.Strict.Worker.Queue.{Item, Heapq, NoEarlier, Popped, tally, by_time}
use csdlpt.Strict.Worker.Order.{Ascending}

pub tally-insert :
    (t : Item → Bool) (x : Item) (l : List Item) → tally t (insert by_time x l) ≡ tally t (x ∷ l)
unfolding keep insert
tally-insert t x [] = refl
tally-insert t x (y ∷ l) = ground (arith, tally-insert t x l)

NoEarlier-insert :
    (x y : Item) (l : List Item)
    → x.time ≤ℤ y.time
    → NoEarlier x l
    → NoEarlier x (insert by_time y l)
unfolding insert
NoEarlier-insert x y [] h k = (h, tt)
NoEarlier-insert x y (z ∷ l) h k = ground (arith, NoEarlier-insert x y l h)

NoEarlier-weaken : (x y : Item) (l : List Item) → x.time ≤ℤ y.time → NoEarlier y l → NoEarlier x l
NoEarlier-weaken x y [] h k = tt
NoEarlier-weaken x y (z ∷ l) h k = (omega (arith, k.0), NoEarlier-weaken x y l h k.1)

pub insert-Ascending : (x : Item) (l : List Item) → Ascending l → Ascending (insert by_time x l)
unfolding insert
insert-Ascending x [] a = (tt, tt)
insert-Ascending x (y ∷ l) a =
    ground (arith, insert-Ascending x l, NoEarlier-insert y x l, NoEarlier-weaken x y l)

abbrev pub first_of : List Item → Option (Item × List Item)
first_of [] = none
first_of (x ∷ l) = some (x, l)

pub first_of-Popped : (l : List Item) → Ascending l → Popped Ascending l (first_of l)
first_of-Popped [] a = refl
first_of-Popped (x ∷ l) a = ((λ t. refl), a.0, a.1)

abbrev pub sorted_heap : Heapq
sorted_heap = record {
  heappush = insert by_time;
  heappop = first_of;
  IsHeap = Ascending;
  empty-IsHeap = tt;
  heappush-IsHeap = insert-Ascending;
  tally-heappush = tally-insert;
  heappop-Popped = first_of-Popped;
}
