-- ===== src/Tests/Outputs.antt =====
-- strict/output_manager.py: tests of the output manager and its transactional sink.
use csdlpt.Prelude.{Bool, ℕ, ◌≡◌, refl, true, false, none, some, List, [], ◌∷◌, pos, nat_eq}
use csdlpt.Prelude.Dict
use csdlpt.Common.Types.{WindowId, WindowResult, window_eq}
use csdlpt.Strict.Output.{
  OutputManager, Topic, results, audit, transactional, init, Payload, payload,
}
use csdlpt.Strict.Output.Once.{SentOnce, emit_all, emit_all-at_most_once}
use csdlpt.Strict.Output.Sink
use csdlpt.Strict.Output.Sink.Recovery.{Keeps, recover_commits}
use csdlpt.Strict.Output.Sink.Crash.{recover-pre_commit}

abbrev first_id : WindowId
first_id = record { partition = 1; start = pos 0; stop = pos 5000 }

abbrev first_result : WindowResult
first_result = record {
  window_id = first_id;
  partition_id = 1;
  window_start = pos 0;
  window_end = pos 5000;
  count = 7;
  status_500 = 2;
  is_speculative = false;
  version = 1;
}

abbrev repeated : List (ℕ × WindowResult)
repeated = (10, first_result) ∷ (20, first_result) ∷ []

-- The audit producer raises, the other one does not.
abbrev takes : Topic → ℕ → Bool
takes results n = true
takes audit n = false

emit_all-at_most_once_example :
    SentOnce (emit_all repeated (init transactional true true takes none)) results first_id
emit_all-at_most_once_example =
    emit_all-at_most_once repeated transactional true true takes none results first_id

abbrev manager : OutputManager
manager = emit_all repeated (init transactional true false takes none)

abbrev body : Payload
body = payload 10 first_result

abbrev other_id : WindowId
other_id = record { partition = 1; start = pos 5000; stop = pos 10000 }

-- A sink that committed one window and crashed in the transaction 2 of another one.
abbrev interrupted : Sink.Sink
interrupted = record {
  committed = (other_id, body) ∷ [];
  pre_commits = (2, record { window_id = first_id; body = body; timestamp = 10 }) ∷ [];
  in_progress = [];
  tx_counter = 2;
  store = none;
}

recover_commits_example :
    (Dict.has (Sink.recover interrupted).1.committed first_id ≡ true)
    × Keeps interrupted (Sink.recover interrupted).1
unfolding Sink.load_tx_state Dict.get
recover_commits_example =
    recover_commits interrupted 2 (record { window_id = first_id; body = body; timestamp = 10 })
      refl

abbrev with_store : Sink.Sink
with_store = Sink.empty (some (record { pre = []; inprog = [] }))

recover-pre_commit_example :
    Dict.has
      (Sink.recover (Sink.empty (Sink.pre_commit 10 1 first_id body with_store).store)).1.committed
      first_id
    ≡ true
unfolding Sink.empty
recover-pre_commit_example =
    recover-pre_commit 10 1 first_id body with_store (record { pre = []; inprog = [] }) refl tt
