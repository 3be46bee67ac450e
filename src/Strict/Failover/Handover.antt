-- ===== src/Strict/Failover/Handover.antt =====
-- strict/failover.py: a failback, from its start to the end of its five steps.
use csdlpt.Prelude.{
  ℕ, suc, ◌≡◌, ◌≢◌, refl, ◌∙◌, sym, subst, ap, false, String, Option, none, some, List, [], ◌∷◌,
  nat_eq, length, arith, ◌<◌,
}
use csdlpt.Prelude.Dict
use csdlpt.Prelude.Dict.{Dict}
use csdlpt.Common.Types.{assigned}
use csdlpt.Strict.Failover.State.{
  FailoverManager, FailbackState, FailbackStep, pause, flush_ack, kafka_reassign, seek_resume,
  complete, log_event, notify,
}
use csdlpt.Strict.Failover.Failback.{
  Advanced, not_in_failback, next_step, advance_failback, advance_from, finish, move_on,
  delete_persisted, persist_one, on_store,
}

-- The calls of `advance_failback` that a step is away from the end.
unfoldable pub steps_left : FailbackStep → ℕ
steps_left pause = 4
steps_left flush_ack = 3
steps_left kafka_reassign = 2
steps_left seek_resume = 1
steps_left complete = 0

-- One call of `advance_failback` at each of the times.
unfoldable pub advance_all : List ℕ → ℕ → FailoverManager → FailoverManager
unfolding advance_failback
advance_all [] pid m = m
advance_all (now ∷ l) pid m = advance_all l pid (advance_failback now pid m).1

-- The partition is back: it is ASSIGNED to the worker, and no failback of it is left in memory or on disk.
pub record IsBack (m : FailoverManager) (pid : ℕ) (w : String) : Type 0 where
  pub owner : Dict.get m.partition_owner pid ≡ some w
  pub state : Dict.get m.partition_state pid ≡ some assigned
  pub pending : Dict.get m.pending_reassignments pid ≡ none
  pub over : Dict.get m.failback_states pid ≡ none
  pub stored : (d : Dict ℕ FailbackState) → m.store ≡ some d → Dict.get d pid ≡ none

removed_from :
    (pid : ℕ) (o : Option (Dict ℕ FailbackState)) (d : Dict ℕ FailbackState)
    → on_store (λ x. Dict.remove x pid) o ≡ some d
    → Dict.get d pid ≡ none
removed_from pid none d e = cc
removed_from pid (some x) d e = ground (arith, Dict.get-remove x pid pid)

finish-IsBack :
    (now pid : ℕ) (fb : FailbackState) (m : FailoverManager)
    → IsBack (finish now pid fb m) pid fb.to_worker
unfolding finish notify delete_persisted log_event
finish-IsBack now pid fb m = record {
  owner = Dict.get-put_self m.partition_owner pid fb.to_worker;
  state = Dict.get-put_self m.partition_state pid assigned;
  pending = ground (arith, Dict.get-remove m.pending_reassignments pid pid);
  over = ground (arith, Dict.get-remove m.failback_states pid pid);
  stored = λ d. removed_from pid m.store d;
}

move_on-state :
    (now pid : ℕ) (fb : FailbackState) (next : FailbackStep) (m : FailoverManager)
    → Dict.get (move_on now pid fb next m).failback_states pid
      ≡ some (record fb { step = next; last_step_at = now })
unfolding move_on persist_one log_event
move_on-state now pid fb next m =
    Dict.get-put_self m.failback_states pid (record fb { step = next; last_step_at = now })

by_state : ℕ → ℕ → FailoverManager → Option FailbackState → Advanced × FailoverManager
by_state now pid m o = elim o [
  | none ↦ (not_in_failback, m)
  | some fb ↦ advance_from now pid fb fb.step m
]

advance_at :
    (now pid : ℕ) (fb : FailbackState) (m : FailoverManager)
    → Dict.get m.failback_states pid ≡ some fb
    → (advance_failback now pid m).1 ≡ (advance_from now pid fb fb.step m).1
unfolding advance_failback by_state
advance_at now pid fb m h = ap (λ o. (by_state now pid m o).1) h

-- The last call.
last_step :
    (now pid : ℕ) (fb : FailbackState) (s : FailbackStep) (m : FailoverManager)
    → steps_left s ≡ 1
    → (advance_from now pid fb s m).1 ≡ finish now pid fb m
unfolding advance_from steps_left
last_step now pid fb pause m e = absurd (omega arith)
last_step now pid fb flush_ack m e = absurd (omega arith)
last_step now pid fb kafka_reassign m e = absurd (omega arith)
last_step now pid fb seek_resume m e = refl
last_step now pid fb complete m e = absurd (omega arith)

-- A call before it.
middle_step :
    (now pid : ℕ) (fb : FailbackState) (s : FailbackStep) (m : FailoverManager)
    → 1 < steps_left s
    → ((advance_from now pid fb s m).1 ≡ move_on now pid fb (next_step s) m)
      × (steps_left s ≡ suc (steps_left (next_step s)))
unfolding advance_from steps_left next_step
middle_step now pid fb pause m e = (refl, refl)
middle_step now pid fb flush_ack m e = (refl, refl)
middle_step now pid fb kafka_reassign m e = (refl, refl)
middle_step now pid fb seek_resume m e = absurd (omega arith)
middle_step now pid fb complete m e = absurd (omega arith)

not_complete : (s : FailbackStep) → s ≢ complete → 0 < steps_left s
unfolding steps_left
not_complete pause h = omega arith
not_complete flush_ack h = omega arith
not_complete kafka_reassign h = omega arith
not_complete seek_resume h = omega arith
not_complete complete h = absurd (h refl)

module _ (pid : ℕ) where
  advance_all_counts :
      (l : List ℕ) (fb : FailbackState) (m : FailoverManager)
      → Dict.get m.failback_states pid ≡ some fb
      → 0 < steps_left fb.step
      → length l ≡ steps_left fb.step
      → IsBack (advance_all l pid m) pid fb.to_worker
  unfolding advance_all
  advance_all_counts [] fb m h p e = absurd (omega arith)
  advance_all_counts (now ∷ []) fb m h p e =
      subst (λ x. IsBack x pid fb.to_worker)
        (sym (advance_at now pid fb m h ∙ last_step now pid fb fb.step m (omega arith)))
        (finish-IsBack now pid fb m)
  advance_all_counts (now ∷ t ∷ l) fb m h p e =
      let k = middle_step now pid fb fb.step m (omega arith) in
      subst (λ x. IsBack (advance_all (t ∷ l) pid x) pid fb.to_worker)
        (sym (advance_at now pid fb m h ∙ k.0))
        (advance_all_counts (t ∷ l) (record fb { step = next_step fb.step; last_step_at = now })
          (move_on now pid fb (next_step fb.step) m)
          (move_on-state now pid fb (next_step fb.step) m) (omega (arith, k.1))
          (omega (arith, k.1)))

  -- While a failback of the partition is in memory and not complete, as many calls of
  -- `advance_failback` as its step is away from the end bring it back: it is ASSIGNED to the worker of
  -- the failback, with nothing pending, and its state is gone from memory and from the store.
  pub advance_all-IsBack :
      (l : List ℕ) (fb : FailbackState) (m : FailoverManager)
      → Dict.get m.failback_states pid ≡ some fb
      → fb.step ≢ complete
      → length l ≡ steps_left fb.step
      → IsBack (advance_all l pid m) pid fb.to_worker
  advance_all-IsBack l fb m h ne e = advance_all_counts l fb m h (not_complete fb.step ne) e

-- What a call of `advance_failback` for another partition leaves.
pub record IsUntouched (m m' : FailoverManager) (j : ℕ) : Type 0 where
  pub owner : Dict.get m'.partition_owner j ≡ Dict.get m.partition_owner j
  pub state : Dict.get m'.partition_state j ≡ Dict.get m.partition_state j
  pub pending : Dict.get m'.pending_reassignments j ≡ Dict.get m.pending_reassignments j

module _ (pid j : ℕ) (ne : nat_eq.beq pid j ≡ false) where
  finish-IsUntouched :
      (now : ℕ) (fb : FailbackState) (m : FailoverManager) → IsUntouched m (finish now pid fb m) j
  unfolding finish notify delete_persisted log_event
  finish-IsUntouched now fb m = record {
    owner = rw (Dict.get-put m.partition_owner pid j fb.to_worker, ne);
    state = rw (Dict.get-put m.partition_state pid j assigned, ne);
    pending = rw (Dict.get-remove m.pending_reassignments pid j, ne);
  }

move_on-IsUntouched :
    (now pid j : ℕ) (fb : FailbackState) (s : FailbackStep) (m : FailoverManager)
    → IsUntouched m (move_on now pid fb s m) j
unfolding move_on persist_one log_event
move_on-IsUntouched now pid j fb s m = record { owner = refl; state = refl; pending = refl }

step_IsUntouched :
    (now pid j : ℕ) (fb : FailbackState) (s : FailbackStep) (m : FailoverManager)
    → nat_eq.beq pid j ≡ false
    → IsUntouched m (advance_from now pid fb s m).1 j
unfolding advance_from
step_IsUntouched now pid j fb pause m ne = move_on-IsUntouched now pid j fb (next_step pause) m
step_IsUntouched now pid j fb flush_ack m ne =
    move_on-IsUntouched now pid j fb (next_step flush_ack) m
step_IsUntouched now pid j fb kafka_reassign m ne =
    move_on-IsUntouched now pid j fb (next_step kafka_reassign) m
step_IsUntouched now pid j fb seek_resume m ne = finish-IsUntouched pid j ne now fb m
step_IsUntouched now pid j fb complete m ne = record { owner = refl; state = refl; pending = refl }

advance-IsUntouched :
    (now pid j : ℕ) (m : FailoverManager)
    → nat_eq.beq pid j ≡ false
    → IsUntouched m (advance_failback now pid m).1 j
unfolding advance_failback by_state
advance-IsUntouched now pid j m ne =
    elim (Dict.get m.failback_states pid) as (λ o. IsUntouched m (by_state now pid m o).1 j) [
      | none ↦ record { owner = refl; state = refl; pending = refl }
      | some fb ↦ step_IsUntouched now pid j fb fb.step m ne
    ]

-- Before the last of these calls the partition is where it was: while a failback of it is in memory,
-- fewer calls than its step is away from the end change neither its owner nor its state nor its pending
-- worker.
pub advance_all_keeps :
    (l : List ℕ) (pid : ℕ) (fb : FailbackState) (m : FailoverManager)
    → Dict.get m.failback_states pid ≡ some fb
    → length l < steps_left fb.step
    → IsUntouched m (advance_all l pid m) pid
unfolding advance_all
advance_all_keeps [] pid fb m h p = record { owner = refl; state = refl; pending = refl }
advance_all_keeps (now ∷ l) pid fb m h p =
    let k = middle_step now pid fb fb.step m (omega arith) in
    let u = move_on-IsUntouched now pid pid fb (next_step fb.step) m in
    let r =
      advance_all_keeps l pid (record fb { step = next_step fb.step; last_step_at = now })
        (move_on now pid fb (next_step fb.step) m) (move_on-state now pid fb (next_step fb.step) m)
        (omega (arith, k.1)) in
    subst (λ x. IsUntouched m (advance_all l pid x) pid) (sym (advance_at now pid fb m h ∙ k.0))
      (record {
        owner = r.owner ∙ u.owner;
        state = r.state ∙ u.state;
        pending = r.pending ∙ u.pending;
      })

-- Calls for a partition leave the owner, the state and the pending worker of each other one.
pub advance_all_others :
    (l : List ℕ) (pid j : ℕ) (m : FailoverManager)
    → nat_eq.beq pid j ≡ false
    → IsUntouched m (advance_all l pid m) j
unfolding advance_all
advance_all_others [] pid j m ne = record { owner = refl; state = refl; pending = refl }
advance_all_others (now ∷ l) pid j m ne =
    let u = advance-IsUntouched now pid j m ne in
    let r = advance_all_others l pid j (advance_failback now pid m).1 ne in
    record { owner = r.owner ∙ u.owner; state = r.state ∙ u.state; pending = r.pending ∙ u.pending }
