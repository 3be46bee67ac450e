-- ===== src/Strict/Failover/Takeover.antt =====
-- strict/failover.py: runs of the manager, and a new coordinator that starts on the store of the old one.
use csdlpt.Prelude.{
  ℕ, ◌≡◌, refl, ap, ◌∙◌, sym, subst, Bool, String, Option, none, some, List, [], ◌∷◌, nat_eq,
  string_eq, arith,
}
use csdlpt.Prelude.Dict
use csdlpt.Prelude.Dict.{Dict}
use csdlpt.Strict.Failover.State.{FailoverManager, FailbackState}
use csdlpt.Strict.Failover.Membership.{register_worker, heartbeat, detect_failures}
use csdlpt.Strict.Failover.Reassign.{reassign_failed_partitions, cascading_failover}
use csdlpt.Strict.Failover.Failback.{
  put_states, restore_failback_state, repaused, repause_all, resume_failback, start_failback,
  advance_failback, persist_failback_state, init,
}
use csdlpt.Strict.Failover.Leaving.{
  register-Leaves, beat-Leaves, detect-Leaves, reassign-Leaves, cascade-Leaves,
}
use csdlpt.Strict.Failover.Mirror.{
  persist-IsMirrored, IsMirrored, Mirrors, Leaves, Leaves-trans, Leaves-IsMirrored,
  advance-IsMirrored, start-IsMirrored, get-put_states, put_states-IsKeyed, over,
}

-- A call of the manager, with the time it is made at.
pub data Call : Type 0 where
  register : ℕ → String → List ℕ → Call
  beat : ℕ → String → List ℕ → List (ℕ × ℕ) → Call
  detect reassign : ℕ → Call
  cascade : ℕ → List String → Call
  start : ℕ → String → Call
  advance : ℕ → ℕ → Call
  persist resume : Call

unfoldable pub call : Call → FailoverManager → FailoverManager
call (register now w l) m = register_worker now w l m
call (beat now w l offsets) m = heartbeat now w l offsets m
call (detect now) m = (detect_failures now m).1
call (reassign now) m = (reassign_failed_partitions now m).1
call (cascade now l) m = (cascading_failover now l m).1
call (start now w) m = (start_failback now w m).1
call (advance now pid) m = (advance_failback now pid m).1
call persist m = (persist_failback_state m).1
call resume m = (resume_failback m).1

unfoldable pub run : List Call → FailoverManager → FailoverManager
unfolding call
run [] m = m
run (c ∷ l) m = run l (call c m)

repaused-Leaves : (pid : ℕ) (m : FailoverManager) → Leaves m (repaused pid m)
repaused-Leaves pid m = record { memory = ground arith; disk = ground arith }

repause_all-Leaves : (l : List ℕ) (m : FailoverManager) → Leaves m (repause_all l m)
unfolding repause_all
repause_all-Leaves [] m = record { memory = refl; disk = refl }
repause_all-Leaves (pid ∷ l) m =
    Leaves-trans m (repaused pid m) (repause_all l (repaused pid m)) (repaused-Leaves pid m)
      (repause_all-Leaves l (repaused pid m))

-- What is put over itself does not change.
over_same : (o : Option FailbackState) → over o o ≡ o
over_same none = refl
over_same (some fb) = refl

over_none : (o : Option FailbackState) → over o none ≡ o
over_none none = refl
over_none (some fb) = refl

-- Restored is what the store holds, over what is in memory.
restored_from :
    (m : FailoverManager) (o : Option (Dict ℕ FailbackState))
    → m.store ≡ o
    → IsMirrored m
    → IsMirrored (restore_failback_state m).1
unfolding restore_failback_state
restored_from m none e h = rw (restore_failback_state, e) h
restored_from m (some d) e h =
    let x = subst (Mirrors m.failback_states) e h.mirror in
    rw (restore_failback_state, e)
      (record {
        keyed = put_states-IsKeyed d m.failback_states h.keyed;
        mirror = subst (Mirrors (put_states d m.failback_states)) (sym e) (
          x.0,
          λ j.
              x.1 j
              ∙ sym (over_same (Dict.get m.failback_states j))
              ∙ ap (λ o. over o (Dict.get m.failback_states j)) (sym (x.1 j))
              ∙ sym (get-put_states d m.failback_states j x.0),
        );
      })

resume-IsMirrored : (m : FailoverManager) → IsMirrored m → IsMirrored (resume_failback m).1
unfolding resume_failback
resume-IsMirrored m h =
    let r = (restore_failback_state m).1 in
    Leaves-IsMirrored r (repause_all (Dict.keys r.failback_states) r)
      (repause_all-Leaves (Dict.keys r.failback_states) r) (restored_from m m.store refl h)

call-IsMirrored : (c : Call) (m : FailoverManager) → IsMirrored m → IsMirrored (call c m)
unfolding call
call-IsMirrored (register now w l) m h =
    Leaves-IsMirrored m (register_worker now w l m) (register-Leaves now w l m) h
call-IsMirrored (beat now w l offsets) m h =
    Leaves-IsMirrored m (heartbeat now w l offsets m) (beat-Leaves now w l offsets m) h
call-IsMirrored (detect now) m h =
    Leaves-IsMirrored m (detect_failures now m).1 (detect-Leaves now m) h
call-IsMirrored (reassign now) m h =
    Leaves-IsMirrored m (reassign_failed_partitions now m).1 (reassign-Leaves now m) h
call-IsMirrored (cascade now l) m h =
    Leaves-IsMirrored m (cascading_failover now l m).1 (cascade-Leaves now l m) h
call-IsMirrored (start now w) m h = start-IsMirrored now w m h
call-IsMirrored (advance now pid) m h = advance-IsMirrored now pid m h
call-IsMirrored persist m h = persist-IsMirrored m h
call-IsMirrored resume m h = resume-IsMirrored m h

-- Where the store, if there is one, holds the failbacks that are in memory, it does after any calls.
pub run-IsMirrored : (l : List Call) (m : FailoverManager) → IsMirrored m → IsMirrored (run l m)
unfolding run
run-IsMirrored [] m h = h
run-IsMirrored (c ∷ l) m h = run-IsMirrored l (call c m) (call-IsMirrored c m h)

-- Where the store holds the failbacks that are in memory, a coordinator that takes over at any time
-- after it has in its memory, as soon as it is made on the store, the failbacks that the first one has.
pub run-init :
    (l : List Call) (m : FailoverManager) (d : Dict ℕ FailbackState) (timeout total j : ℕ)
    (has_callback : Bool)
    → IsMirrored m
    → (run l m).store ≡ some d
    → Dict.get (init timeout total (some d) has_callback).failback_states j
      ≡ Dict.get (run l m).failback_states j
unfolding init restore_failback_state Dict.get
run-init l m d timeout total j has_callback h e =
    let x = subst (Mirrors (run l m).failback_states) e (run-IsMirrored l m h).mirror in
    get-put_states d [] j x.0 ∙ over_none (Dict.get d j) ∙ x.1 j
