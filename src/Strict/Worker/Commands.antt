-- ===== src/Strict/Worker/Commands.antt =====
-- strict/worker.py: the commands of the coordinator: `validate_command` and
-- `update_global_watermark`.
use csdlpt.Prelude.{
  ℕ, Bool, true, false, not, ◌&&◌, String, List, [], ◌∷◌, string_eq, elem, ltb, if◌then◌else◌,
  length, map,
}
use csdlpt.Prelude.Mark.{Mark}
use csdlpt.Prelude.Dict.{Dict}
use csdlpt.Strict.Engine.State.{Engine}
use csdlpt.Strict.Engine.Steps.{raise_watermark}

-- The attributes of `StrictWorker` that a command reads or writes.
pub record StrictWorker : Type 0 where
  pub known_term : ℕ
  pub seen_commands : List String
  pub engines : Dict ℕ Engine

-- The empty id is not remembered.
abbrev pub is_named : String → Bool
is_named id = not (string_eq.beq id "")

abbrev pub add_command : String → List String → List String
add_command id l = if is_named id then (if elem id l then l else id ∷ l) else l

-- More than a thousand ids are all dropped.
unfoldable pub forget : List String → List String
forget l = if ltb 1000 (length l) then [] else l

unfoldable pub validate_command : ℕ → String → StrictWorker → Bool × StrictWorker
unfolding forget
validate_command term id w =
    if ltb term w.known_term
    then (false, w)
    else if is_named id && elem id w.seen_commands
    then (false, w)
    else (
      true,
      record w {
        known_term = if ltb w.known_term term then term else w.known_term;
        seen_commands = forget (add_command id w.seen_commands);
      },
    )

unfoldable pub raise_all : Mark → ℕ → Dict ℕ Engine → Dict ℕ Engine
raise_all W_global term = map (λ p. (p.0, raise_watermark W_global term p.1))

abbrev pub raised : Mark → ℕ → Bool × StrictWorker → StrictWorker
raised W_global term (false, w) = w
raised W_global term (true, w) = record w { engines = raise_all W_global term w.engines }

unfoldable pub update_global_watermark : Mark → ℕ → String → StrictWorker → StrictWorker
unfolding validate_command raise_all
update_global_watermark W_global term id w = raised W_global term (validate_command term id w)
