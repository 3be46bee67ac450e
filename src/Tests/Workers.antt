-- ===== src/Tests/Workers.antt =====
-- strict/worker.py: tests of the queue, on a sorted list, and of the commands.
use csdlpt.Prelude.{
  ℕ, zero, suc, ◌+◌, ◌<◌, ◌≡◌, refl, arith, Bool, true, false, String, List, [], ◌∷◌, pos,
  string_eq, elem, length, ◌==◌,
}
use csdlpt.Common.Types.{LogEvent}
use csdlpt.Strict.Worker.Queue.{
  Item, BoundedPriorityQueue, tally, item_of, push, smaller, pop_all_ready,
}
use csdlpt.Strict.Worker.Commands.{StrictWorker, validate_command}
use csdlpt.Strict.Worker.Conservation.{returned, NoneEarlier, push_lem}
use csdlpt.Strict.Worker.Order.{Ascending, Before, pop_all_ready_lem}
use csdlpt.Strict.Worker.SortedHeap.{sorted_heap}
use csdlpt.Strict.Worker.Idempotence.{validate_command_forgets}

abbrev event : ℕ → LogEvent
event t = record { event_id = "a"; event_time = pos t; status = 200; offset = 0 }

abbrev item : ℕ → Item
item t = record { time = pos t; counter = 0; event = event t }

-- One more event fills the buffer.
abbrev queue : BoundedPriorityQueue
queue = record {
  maxsize = 3;
  max_wait_ms = 1000;
  buffer = item 10 ∷ item 30 ∷ [];
  counter = 2;
  last_pop = 0;
}

abbrev is_new : Item → Bool
is_new x = x.counter == 2

push_lem_example :
    let r = push sorted_heap 5 (event 20) queue in
    (tally is_new (returned r.0) + tally is_new r.1.buffer
      ≡ tally is_new (item_of (event 20) queue ∷ queue.buffer))
    × NoneEarlier r.0 r.1.buffer
    × Ascending r.1.buffer
    × (length r.1.buffer < 3)
push_lem_example =
    push_lem sorted_heap 5 (event 20) queue is_new ((omega arith, tt), (tt, tt)) (omega arith)

pop_all_ready_lem_example :
    let r = pop_all_ready sorted_heap 5 200 queue in
    (tally is_new r.0 + tally is_new r.1.buffer ≡ tally is_new queue.buffer)
    × (length r.0 ≡ smaller 200 2)
    × Ascending r.0
    × Before r.0 r.1.buffer
pop_all_ready_lem_example =
    pop_all_ready_lem sorted_heap 5 200 queue is_new ((omega arith, tt), (tt, tt))

abbrev worker : StrictWorker
worker = record { known_term = 2; seen_commands = "x" ∷ []; engines = [] }

-- A thousand remembered ids.
repeat : ℕ → List String
repeat zero = []
repeat (suc n) = "x" ∷ repeat n

length-repeat : (n : ℕ) → length (repeat n) ≡ n
unfolding repeat
length-repeat zero = refl
length-repeat (suc n) = omega (arith, length-repeat n)

repeat-elem : (n : ℕ) → elem "c" (repeat n) ≡ false
unfolding repeat elem
repeat-elem zero = refl
repeat-elem (suc n) = ground (arith, repeat-elem n)

full_worker : StrictWorker
full_worker = record { known_term = 2; seen_commands = repeat 1000; engines = [] }

full_worker-takes : (validate_command 3 "c" full_worker).0 ≡ true
unfolding validate_command full_worker
full_worker-takes = ground (arith, repeat-elem 1000)

validate_command_forgets_example :
    (validate_command 3 "c" (validate_command 3 "c" full_worker).1).0 ≡ true
validate_command_forgets_example =
    validate_command_forgets 3 "c" full_worker refl (unfold full_worker in length-repeat 1000)
      full_worker-takes
