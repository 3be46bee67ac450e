-- ===== src/Strict/Worker/Queue.antt =====
-- strict/worker.py: `BoundedPriorityQueue`. Python's heapq is an interface: two operations on a list,
-- a notion of a list that is a heap, and what its documentation promises.
use csdlpt.Prelude.{
  ℕ, zero, suc, ◌+◌, ◌-◌, ◌≡◌, Bool, ◌&&◌, not, Option, none, some, List, [], ◌∷◌, ℤ, ◌≤ℤ◌, leb,
  ltb, ◌==◌, if◌then◌else◌, keep, length, All, map,
}
use csdlpt.Prelude.Sort.{sort}
use csdlpt.Common.Types.{LogEvent}

-- (event.event_time, self._counter, event)
pub record Item : Type 0 where
  pub time : ℤ
  pub counter : ℕ
  pub event : LogEvent

-- How many items pass a test.
abbrev pub tally : (Item → Bool) → List Item → ℕ
tally t l = length (keep t l)

abbrev pub NoEarlier : Item → List Item → Type 0
NoEarlier x = All (λ y. x.time ≤ℤ y.time)

-- What `heappop` must answer: nothing of an empty list, else an earliest item and the others.
abbrev pub Popped : (List Item → Type 0) → List Item → Option (Item × List Item) → Type 0
Popped IsHeap l none = l ≡ []
Popped IsHeap l (some (x, rest)) =
    ((t : Item → Bool) → tally t (x ∷ rest) ≡ tally t l) × NoEarlier x rest × IsHeap rest

pub record Heapq : Type 1 where
  pub heappush : Item → List Item → List Item
  pub heappop : List Item → Option (Item × List Item)
  pub IsHeap : List Item → Type 0
  pub empty-IsHeap : IsHeap []
  pub heappush-IsHeap : (x : Item) (l : List Item) → IsHeap l → IsHeap (heappush x l)
  pub tally-heappush :
      (t : Item → Bool) (x : Item) (l : List Item) → tally t (heappush x l) ≡ tally t (x ∷ l)
  pub heappop-Popped : (l : List Item) → IsHeap l → Popped IsHeap l (heappop l)

pub record BoundedPriorityQueue : Type 0 where
  pub maxsize : ℕ
  pub max_wait_ms : ℕ
  pub buffer : List Item
  pub counter : ℕ
  pub last_pop : ℕ

abbrev pub by_time : Item → ℤ
by_time x = x.time

-- `flush_all`: sorted by the time only, whatever the order of the heap's list.
unfoldable pub flush_all : BoundedPriorityQueue → List LogEvent × BoundedPriorityQueue
flush_all q = (map (λ x. x.event) (sort by_time q.buffer), record q { buffer = [] })

abbrev pub prepend :
    Option Item → List Item × BoundedPriorityQueue → List Item × BoundedPriorityQueue
prepend none r = r
prepend (some x) (l, q) = (x ∷ l, q)

abbrev pub smaller : ℕ → ℕ → ℕ
smaller a b = if ltb b a then b else a

abbrev pub item_of : LogEvent → BoundedPriorityQueue → Item
item_of ev q = record { time = ev.event_time; counter = q.counter; event = ev }

-- `now` is the monotonic clock, in milliseconds.
module _ (heap : Heapq) (now : ℕ) where
  unfoldable pub init : ℕ → ℕ → BoundedPriorityQueue
  init maxsize max_wait_ms = record {
    maxsize = maxsize;
    max_wait_ms = max_wait_ms;
    buffer = [];
    counter = 0;
    last_pop = now;
  }

  abbrev pub popped :
      BoundedPriorityQueue → Option (Item × List Item) → Option Item × BoundedPriorityQueue
  popped q none = (none, q)
  popped q (some (x, rest)) = (some x, record q { buffer = rest; last_pop = now })

  -- `_pop_min`, with the whole item
  unfoldable pub pop_min : BoundedPriorityQueue → Option Item × BoundedPriorityQueue
  pop_min q = popped q (heap.heappop q.buffer)

  unfoldable pub push : LogEvent → BoundedPriorityQueue → Option Item × BoundedPriorityQueue
  unfolding pop_min
  push ev q =
      let q' = record q {
        buffer = heap.heappush (item_of ev q) q.buffer;
        counter = q.counter + 1;
      } in
      if leb q.maxsize (length q'.buffer) then pop_min q' else (none, q')

  -- An empty buffer, or too short a wait, gives nothing.
  unfoldable pub pop_ready : BoundedPriorityQueue → Option Item × BoundedPriorityQueue
  unfolding pop_min
  pop_ready q =
      if not (length q.buffer == 0) && leb q.max_wait_ms (now - q.last_pop)
      then pop_min q
      else (none, q)

  -- The `for` loop of `pop_all_ready`.
  unfoldable pub pop_times : ℕ → BoundedPriorityQueue → List Item × BoundedPriorityQueue
  unfolding pop_min
  pop_times zero q = ([], q)
  pop_times (suc n) q = let (o, q') = pop_min q in prepend o (pop_times n q')

  unfoldable pub pop_all_ready : ℕ → BoundedPriorityQueue → List Item × BoundedPriorityQueue
  unfolding pop_times
  pop_all_ready batch_size q = pop_times (smaller batch_size (length q.buffer)) q
