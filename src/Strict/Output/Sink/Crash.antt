-- ===== src/Strict/Output/Sink/Crash.antt =====
-- strict/output_manager.py: a crash between the two phases of a commit.
use csdlpt.Prelude.{ℕ, ◌≡◌, refl, arith, true, none, some, List, [], ◌∷◌, nat_eq}
use csdlpt.Prelude.Dict
use csdlpt.Prelude.Dict.{Dict, get-put, get-remove, get-put_self, put-IsDict, IsDict}
use csdlpt.Common.Types.{WindowId, window_eq}
use csdlpt.Strict.Output.Result.{Payload}
use csdlpt.Strict.Output.Sink.{
  Sink, PreCommit, TxTables, put_all, load_tx_state, empty, pre_commit, persist_tx_state, recover,
  mark_pre_committed,
}
use csdlpt.Strict.Output.Sink.Recovery.{recover_resolves}

get-put_all :
    {V : Type 0} (l : List (ℕ × V)) (d : Dict ℕ V) (tx : ℕ)
    → Dict.get l tx ≡ none
    → Dict.get (put_all l d) tx ≡ Dict.get d tx
unfolding put_all Dict.get
get-put_all [] d tx h = refl
get-put_all ((k, v) ∷ l) d tx h =
    ground (arith, get-put_all l (Dict.put d k v) tx, get-put d k tx v)

get-put_all_mem :
    {V : Type 0} (l : List (ℕ × V)) (d : Dict ℕ V) (tx : ℕ) (p : V)
    → IsDict l
    → Dict.get l tx ≡ some p
    → Dict.get (put_all l d) tx ≡ some p
unfolding put_all Dict.get
get-put_all_mem [] d tx p u h = cc
get-put_all_mem ((k, v) ∷ l) d tx p u h = ground (
  arith,
  get-put_all_mem l (Dict.put d k v) tx p u.1,
  get-put_all l (Dict.put d k v) tx,
  get-put d k tx v,
)

loaded_twice :
    (t : TxTables) (tx : ℕ) (p : PreCommit)
    → IsDict t.pre
    → Dict.get t.pre tx ≡ some p
    → Dict.get (load_tx_state (empty (some t))).pre_commits tx ≡ some p
unfolding empty load_tx_state
loaded_twice t tx p u h = get-put_all_mem t.pre (put_all t.pre []) tx p u h

-- A crash right after `pre_commit`, in a sink that has a store, loses nothing: a new sink over the
-- same store commits the window when it recovers.
pub recover-pre_commit :
    (now tx : ℕ) (w : WindowId) (body : Payload) (s : Sink) (t : TxTables)
    → s.store ≡ some t
    → IsDict s.pre_commits
    → Dict.has (recover (empty (pre_commit now tx w body s).store)).1.committed w ≡ true
recover-pre_commit now tx w body s t h u = rw stored (
    (recover_resolves (empty (some tables))).2 tx entry (
      loaded_twice tables tx entry (put-IsDict s.pre_commits tx entry u)
        (get-put_self s.pre_commits tx entry)))
  where
    entry : PreCommit
    entry = record { window_id = w; body = body; timestamp = now }

    tables : TxTables
    tables = record {
      pre = Dict.put s.pre_commits tx entry;
      inprog = mark_pre_committed tx s.in_progress (Dict.get s.in_progress tx);
    }

    stored : (pre_commit now tx w body s).store ≡ some tables
    stored = unfold pre_commit persist_tx_state in ground arith
