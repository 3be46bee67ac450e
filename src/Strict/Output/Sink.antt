-- ===== src/Strict/Output/Sink.antt =====
-- strict/output_manager.py: `MockTransactionalSink`, a two-phase commit with crash recovery.
-- A transaction id, f"tx-{counter:06d}", is its counter. The RocksStore keeps the two tables under
-- the prefixes "tx:pre:" and "tx:inprog:"; it is the pair of these tables.
pub mod Recovery
pub mod Crash
use csdlpt.Prelude.{
  ℕ, suc, Bool, true, false, Option, none, some, List, [], ◌∷◌, nat_eq, if◌then◌else◌, ◌+◌,
}
use csdlpt.Prelude.Dict
use csdlpt.Prelude.Dict.{Dict}
use csdlpt.Common.Types.{WindowId, window_eq}
use csdlpt.Strict.Output.Result.{Payload}

pub data TxState : Type 0 where
  idle begun pre_committed committed rolled_back : TxState

pub record PreCommit : Type 0 where
  pub window_id : WindowId
  pub body : Payload
  pub timestamp : ℕ

pub record InProgress : Type 0 where
  pub window_id : WindowId
  pub state : TxState
  pub timestamp : ℕ

pub record TxTables : Type 0 where
  pub pre : Dict ℕ PreCommit
  pub inprog : Dict ℕ InProgress

pub record Sink : Type 0 where
  pub committed : Dict WindowId Payload
  pub pre_commits : Dict ℕ PreCommit
  pub in_progress : Dict ℕ InProgress
  pub tx_counter : ℕ
  pub store : Option TxTables

-- `d[k] = v` for each entry
put_all : {V : Type 0} → List (ℕ × V) → Dict ℕ V → Dict ℕ V
put_all [] d = d
put_all ((k, v) ∷ l) d = put_all l (Dict.put d k v)

-- `_load_tx_state`
unfoldable pub load_tx_state : Sink → Sink
unfolding put_all
load_tx_state s = elim s.store [
  | none ↦ s
  | some t ↦ record s {
    pre_commits = put_all t.pre s.pre_commits;
    in_progress = put_all t.inprog s.in_progress;
  }
]

-- `__init__`
unfoldable pub empty : Option TxTables → Sink
unfolding load_tx_state
empty store =
    load_tx_state
      (record { committed = []; pre_commits = []; in_progress = []; tx_counter = 0; store = store })

-- `_persist_tx_state`: both prefixes are cleared and written again.
unfoldable pub persist_tx_state : Sink → Sink
persist_tx_state s = elim s.store [
  | none ↦ s
  | some _ ↦ record s { store = some (record { pre = s.pre_commits; inprog = s.in_progress }) }
]

unfoldable pub begin_tx : ℕ → WindowId → Sink → ℕ × Sink
begin_tx now w s =
    let tx = s.tx_counter + 1 in
    (
      tx,
      persist_tx_state (record s {
        tx_counter = tx;
        in_progress =
            Dict.put s.in_progress tx (record { window_id = w; state = begun; timestamp = now });
      }),
    )

mark_pre_committed : ℕ → Dict ℕ InProgress → Option InProgress → Dict ℕ InProgress
mark_pre_committed tx d none = d
mark_pre_committed tx d (some i) = Dict.put d tx (record i { state = pre_committed })

unfoldable pub pre_commit : ℕ → ℕ → WindowId → Payload → Sink → Sink
unfolding mark_pre_committed
pre_commit now tx w body s = persist_tx_state (record s {
  pre_commits = Dict.put s.pre_commits tx (record { window_id = w; body = body; timestamp = now });
  in_progress = mark_pre_committed tx s.in_progress (Dict.get s.in_progress tx);
})

-- Both tables without the transaction.
abbrev pub forget : ℕ → Sink → Sink
forget tx s = record s {
  pre_commits = Dict.remove s.pre_commits tx;
  in_progress = Dict.remove s.in_progress tx;
}

unfoldable pub commit : ℕ → WindowId → Payload → Sink → Bool × Sink
commit tx w body s =
    if Dict.has s.committed w
    then (false, s)
    else (true, persist_tx_state (forget tx (record s { committed = Dict.put s.committed w body })))

unfoldable pub rollback : ℕ → Sink → Sink
rollback tx s = persist_tx_state (forget tx s)

unfoldable pub is_committed : Sink → WindowId → Bool
is_committed s w = Dict.has s.committed w

-- The two loops of `recover`, each over a copy of its table.
settle : ℕ → PreCommit → ℕ × Sink → ℕ × Sink
settle tx p (n, s) =
    if Dict.has s.committed p.window_id
    then (n, forget tx s)
    else (n + 1, forget tx (record s { committed = Dict.put s.committed p.window_id p.body }))

unfoldable pub resolve : List (ℕ × PreCommit) → ℕ × Sink → ℕ × Sink
unfolding settle
resolve [] r = r
resolve ((tx, p) ∷ l) r = resolve l (settle tx p r)

is_begun : TxState → Bool
is_begun begun = true
is_begun _ = false

undo : ℕ → InProgress → Sink → Sink
unfolding is_begun
undo tx i s = if is_begun i.state then forget tx s else s

unfoldable pub discard : List (ℕ × InProgress) → Sink → Sink
unfolding undo
discard [] s = s
discard ((tx, i) ∷ l) s = discard l (undo tx i s)

unfoldable pub recover : Sink → ℕ × Sink
unfolding resolve discard load_tx_state
recover s₀ =
    let s = load_tx_state s₀ in
    let (n, s') = resolve s.pre_commits (0, s) in (n, discard s'.in_progress s')
