-- ===== src/Strict/Worker/Idempotence.antt =====
-- strict/worker.py: a command is taken once, until the ids are dropped.
use csdlpt.Prelude.{
  ℕ, ◌≤◌, ◌<◌, ◌≡◌, refl, ◌∙◌, arith, Bool, true, false, String, string_eq, nat_eq, elem, length,
}
use csdlpt.Prelude.Mark.{Mark}
use csdlpt.Prelude.Dict.{beq_refl}
use csdlpt.Strict.Worker.Commands.{
  StrictWorker, is_named, forget, validate_command, raised, update_global_watermark,
}

-- A command that was taken, with an id, is refused when it comes again at once, at any term, as long as
-- fewer than 1000 ids are remembered; and the term that the worker knows never goes back.
pub validate_command_once :
    (term term' : ℕ) (id : String) (w : StrictWorker)
    → is_named id ≡ true
    → length w.seen_commands < 1000
    → (validate_command term id w).0 ≡ true
    → ((validate_command term' id (validate_command term id w).1).0 ≡ false)
      × (w.known_term ≤ (validate_command term id w).1.known_term)
      × (term ≤ (validate_command term id w).1.known_term)
unfolding validate_command forget elem
validate_command_once term term' id w named few taken =
    (ground (arith, beq_refl id), ground arith, ground arith)

-- The 1001st id makes the worker forget them all, that id too: the same command is taken again.
pub validate_command_forgets :
    (term : ℕ) (id : String) (w : StrictWorker)
    → is_named id ≡ true
    → length w.seen_commands ≡ 1000
    → (validate_command term id w).0 ≡ true
    → (validate_command term id (validate_command term id w).1).0 ≡ true
unfolding validate_command forget elem
validate_command_forgets term id w named full taken = ground arith

validate_command_again :
    (term : ℕ) (id : String) (w : StrictWorker)
    → is_named id ≡ true
    → length w.seen_commands < 1000
    → (validate_command term id (validate_command term id w).1).0 ≡ false
unfolding validate_command forget elem
validate_command_again term id w named few = ground (arith, beq_refl id)

validate_command-refused :
    (term : ℕ) (id : String) (w : StrictWorker)
    → (validate_command term id w).0 ≡ false
    → (validate_command term id w).1 ≡ w
unfolding validate_command
validate_command-refused term id w h = ground arith

raised-refused :
    (W_global : Mark) (term : ℕ) (r : Bool × StrictWorker) (w : StrictWorker)
    → r.0 ≡ false
    → r.1 ≡ w
    → raised W_global term r ≡ w
raised-refused W_global term (true, v) w h k = ground arith
raised-refused W_global term (false, v) w h k = k

update-refused :
    (W_global : Mark) (term : ℕ) (id : String) (w : StrictWorker)
    → (validate_command term id w).0 ≡ false
    → update_global_watermark W_global term id w ≡ w
unfolding update_global_watermark
update-refused W_global term id w h =
    raised-refused W_global term (validate_command term id w) w h
      (validate_command-refused term id w h)

-- Whether a command is refused does not depend on the engines.
validate_command-engines :
    (term : ℕ) (id : String) (v w : StrictWorker)
    → v.known_term ≡ w.known_term
    → v.seen_commands ≡ w.seen_commands
    → (validate_command term id v).0 ≡ (validate_command term id w).0
unfolding validate_command
validate_command-engines term id v w h k = rw (h, k) (ground arith)

raised-commands :
    (W_global : Mark) (term : ℕ) (r : Bool × StrictWorker)
    → ((raised W_global term r).known_term ≡ r.1.known_term)
      × ((raised W_global term r).seen_commands ≡ r.1.seen_commands)
raised-commands W_global term (true, v) = (refl, refl)
raised-commands W_global term (false, v) = (refl, refl)

-- The broadcast of a global watermark is idempotent: when a command with an id comes a second time,
-- neither the engines nor anything else of the worker changes, as long as fewer than 1000 ids are
-- remembered.
pub update_global_watermark_idem :
    (W_global : Mark) (term : ℕ) (id : String) (w : StrictWorker)
    → is_named id ≡ true
    → length w.seen_commands < 1000
    → update_global_watermark W_global term id (update_global_watermark W_global term id w)
      ≡ update_global_watermark W_global term id w
update_global_watermark_idem W_global term id w named few =
    update-refused W_global term id (update_global_watermark W_global term id w) (
      validate_command-engines term id (update_global_watermark W_global term id w)
        (validate_command term id w).1 (unfold update_global_watermark in same.0)
        (unfold update_global_watermark in same.1)
      ∙ validate_command_again term id w named few)
  where
    same :
        ((raised W_global term (validate_command term id w)).known_term
          ≡ (validate_command term id w).1.known_term)
        × ((raised W_global term (validate_command term id w)).seen_commands
            ≡ (validate_command term id w).1.seen_commands)
    same = raised-commands W_global term (validate_command term id w)
