-- ===== src/Strict/Failover/Mirror.antt =====
-- strict/failover.py: what RocksDB holds of the failbacks, against what is in memory.
use csdlpt.Prelude.{
  ℕ, ◌≡◌, refl, ◌∙◌, sym, subst, String, Option, none, some, List, [], ◌∷◌, nat_eq, string_eq,
  arith, keep, map, length, Option-cases, inl, inr,
}
use csdlpt.Prelude.Dict
use csdlpt.Prelude.Dict.{Dict}
use csdlpt.Common.Types.{active}
use csdlpt.Strict.Failover.State.{
  FailoverManager, FailbackState, FailbackStep, pause, flush_ack, kafka_reassign, seek_resume,
  complete, log_event, notify,
}
use csdlpt.Strict.Failover.Failback.{
  put_states, persist_all, persist_one, delete_persisted, put_or_remove, pause_partition, pause_all,
  begun, end_start, start_failback, is_due_back, finish, move_on, advance_from, advance_failback,
  next_step, on_store, persist_failback_state,
}

-- Each state stands under its own partition, once.
pub record IsKeyed (d : Dict ℕ FailbackState) : Type 0 where
  pub once : Dict.IsDict d
  pub own : (j : ℕ) (fb : FailbackState) → Dict.get d j ≡ some fb → fb.partition_id ≡ j

put-IsKeyed :
    (d : Dict ℕ FailbackState) (pid : ℕ) (fb : FailbackState)
    → IsKeyed d
    → fb.partition_id ≡ pid
    → IsKeyed (Dict.put d pid fb)
put-IsKeyed d pid fb k e = record {
  once = Dict.put-IsDict d pid fb k.once;
  own = λ j x h. ground (arith, nat_eq.beq_iff pid j, Dict.get-put d pid j fb, k.own j x);
}

remove-IsKeyed : (d : Dict ℕ FailbackState) (pid : ℕ) → IsKeyed d → IsKeyed (Dict.remove d pid)
remove-IsKeyed d pid k = record {
  once = Dict.remove-IsDict d pid k.once;
  own = λ j x h. ground (arith, nat_eq.beq_iff pid j, Dict.get-remove d pid j, k.own j x);
}

tail-IsKeyed :
    (k : ℕ) (fb : FailbackState) (d : Dict ℕ FailbackState)
    → IsKeyed ((k, fb) ∷ d)
    → (fb.partition_id ≡ k) × IsKeyed d
unfolding Dict.get
tail-IsKeyed k fb d h = (
  h.own k fb (rw (Dict.beq_refl k)),
  record {
    once = h.once.1;
    own = λ j x e. ground (arith, nat_eq.beq_iff k j, h.once.0, h.own j x);
  },
)

abbrev pub over : Option FailbackState → Option FailbackState → Option FailbackState
over none o = o
over (some fb) o = some fb

pub get-put_states :
    (l d : Dict ℕ FailbackState) (j : ℕ)
    → IsKeyed l
    → Dict.get (put_states l d) j ≡ over (Dict.get l j) (Dict.get d j)
unfolding put_states Dict.get
get-put_states [] d j h = refl
get-put_states ((k, fb) ∷ l) d j h =
    let t = tail-IsKeyed k fb l h in
    get-put_states l (Dict.put d fb.partition_id fb) j t.1
    ∙ ground (arith, nat_eq.beq_iff k j, t.0, h.once.0, Dict.get-put d fb.partition_id j fb)

pub put_states-IsKeyed : (l d : Dict ℕ FailbackState) → IsKeyed d → IsKeyed (put_states l d)
unfolding put_states
put_states-IsKeyed [] d h = h
put_states-IsKeyed ((k, fb) ∷ l) d h =
    put_states-IsKeyed l (Dict.put d fb.partition_id fb) (put-IsKeyed d fb.partition_id fb h refl)

-- The store, if there is one, holds what is in memory.
abbrev pub Mirrors : Dict ℕ FailbackState → Option (Dict ℕ FailbackState) → Type 0
Mirrors fs none = Unit {0}
Mirrors fs (some d) = IsKeyed d × ((j : ℕ) → Dict.get d j ≡ Dict.get fs j)

pub record IsMirrored (m : FailoverManager) : Type 0 where
  pub keyed : IsKeyed m.failback_states
  pub mirror : Mirrors m.failback_states m.store

-- An operation that leaves both.
pub record Leaves (m m' : FailoverManager) : Type 0 where
  pub memory : m'.failback_states ≡ m.failback_states
  pub disk : m'.store ≡ m.store

pub Leaves-trans : (a b c : FailoverManager) → Leaves a b → Leaves b c → Leaves a c
Leaves-trans a b c p q = record { memory = q.memory ∙ p.memory; disk = q.disk ∙ p.disk }

pub Leaves-IsMirrored : (m m' : FailoverManager) → Leaves m m' → IsMirrored m → IsMirrored m'
Leaves-IsMirrored m m' l h = record {
  keyed = subst IsKeyed (sym l.memory) h.keyed;
  mirror =
      subst (λ x. Mirrors x m'.store) (sym l.memory)
        (subst (Mirrors m.failback_states) (sym l.disk) h.mirror);
}

-- The three writes to the store.
all_mirror :
    (fs : Dict ℕ FailbackState) (o : Option (Dict ℕ FailbackState))
    → IsKeyed fs
    → Mirrors fs (on_store (λ d. fs) o)
all_mirror fs none h = tt
all_mirror fs (some d) h = (h, λ j. refl)

one_mirror :
    (pid : ℕ) (fb : FailbackState) (fs : Dict ℕ FailbackState) (o : Option (Dict ℕ FailbackState))
    → fb.partition_id ≡ pid
    → Mirrors fs o
    → Mirrors
        (Dict.put fs pid fb)
        (on_store (put_or_remove pid (Dict.get (Dict.put fs pid fb) pid)) o)
one_mirror pid fb fs none e h = tt
one_mirror pid fb fs (some d) e h =
    subst (λ x. Mirrors (Dict.put fs pid fb) (on_store (put_or_remove pid x) (some d)))
      (sym (Dict.get-put_self fs pid fb))
      (
        put-IsKeyed d pid fb h.0 e,
        λ j. ground (arith, Dict.get-put d pid j fb, Dict.get-put fs pid j fb, h.1 j),
      )

gone_mirror :
    (pid : ℕ) (fs : Dict ℕ FailbackState) (o : Option (Dict ℕ FailbackState))
    → Mirrors fs o
    → Mirrors (Dict.remove fs pid) (on_store (λ d. Dict.remove d pid) o)
gone_mirror pid fs none h = tt
gone_mirror pid fs (some d) h = (
  remove-IsKeyed d pid h.0,
  λ j. ground (arith, Dict.get-remove d pid j, Dict.get-remove fs pid j, h.1 j),
)

finish-IsMirrored :
    (now pid : ℕ) (fb : FailbackState) (m : FailoverManager)
    → IsMirrored m
    → IsMirrored (finish now pid fb m)
unfolding finish notify delete_persisted log_event
finish-IsMirrored now pid fb m h = record {
  keyed = remove-IsKeyed m.failback_states pid h.keyed;
  mirror = gone_mirror pid m.failback_states m.store h.mirror;
}

move_on-IsMirrored :
    (now pid : ℕ) (fb : FailbackState) (s : FailbackStep) (m : FailoverManager)
    → fb.partition_id ≡ pid
    → IsMirrored m
    → IsMirrored (move_on now pid fb s m)
unfolding move_on persist_one log_event
move_on-IsMirrored now pid fb s m e h = record {
  keyed = put-IsKeyed m.failback_states pid (record fb { step = s; last_step_at = now }) h.keyed e;
  mirror =
      one_mirror pid (record fb { step = s; last_step_at = now }) m.failback_states m.store e
        h.mirror;
}

step-IsMirrored :
    (now pid : ℕ) (fb : FailbackState) (s : FailbackStep) (m : FailoverManager)
    → fb.partition_id ≡ pid
    → IsMirrored m
    → IsMirrored (advance_from now pid fb s m).1
unfolding advance_from
step-IsMirrored now pid fb pause m e h = move_on-IsMirrored now pid fb (next_step pause) m e h
step-IsMirrored now pid fb flush_ack m e h =
    move_on-IsMirrored now pid fb (next_step flush_ack) m e h
step-IsMirrored now pid fb kafka_reassign m e h =
    move_on-IsMirrored now pid fb (next_step kafka_reassign) m e h
step-IsMirrored now pid fb seek_resume m e h = finish-IsMirrored now pid fb m h
step-IsMirrored now pid fb complete m e h = h

pub advance-IsMirrored :
    (now pid : ℕ) (m : FailoverManager) → IsMirrored m → IsMirrored (advance_failback now pid m).1
unfolding advance_failback
advance-IsMirrored now pid m h = elim (Option-cases (Dict.get m.failback_states pid)) [
  | inl e ↦ rw (advance_failback, e) h
  | inr (fb, e) ↦
      rw (advance_failback, e) (step-IsMirrored now pid fb fb.step m (h.keyed.own pid fb e) h)
]

stored_all : (m : FailoverManager) → IsKeyed m.failback_states → IsMirrored (persist_all m)
unfolding persist_all
stored_all m k = record { keyed = k; mirror = all_mirror m.failback_states m.store k }

pub persist-IsMirrored :
    (m : FailoverManager) → IsMirrored m → IsMirrored (persist_failback_state m).1
unfolding persist_failback_state
persist-IsMirrored m h = elim m.store as (λ o. IsMirrored (written o).1) [
  | none ↦ h
  | some d ↦ stored_all m h.keyed
]
  where
    written : Option (Dict ℕ FailbackState) → ℕ × FailoverManager
    written o = elim o [ none ↦ (0, m) | some d ↦ (length m.failback_states, persist_all m) ]

-- A start writes the store once, at its end.
pause_all-IsKeyed :
    (now : ℕ) (w : String) (l : List (ℕ × String)) (m : FailoverManager)
    → IsKeyed m.failback_states
    → IsKeyed (pause_all now w l m).failback_states
unfolding pause_all pause_partition log_event
pause_all-IsKeyed now w [] m h = h
pause_all-IsKeyed now w ((pid, o) ∷ l) m h =
    pause_all-IsKeyed now w l (pause_partition now w (pid, o) m)
      (put-IsKeyed m.failback_states pid (begun now pid o w) h refl)

ended :
    (now : ℕ) (w : String) (l : List (ℕ × String)) (m : FailoverManager)
    → IsMirrored m
    → IsMirrored (end_start now w (map (λ p. p.0) l) (pause_all now w l m))
unfolding end_start pause_all persist_all log_event
ended now w [] m h = h
ended now w (p ∷ l) m h =
    let m' = pause_all now w (p ∷ l) m in
    let k = pause_all-IsKeyed now w (p ∷ l) m h.keyed in
    record { keyed = k; mirror = all_mirror m'.failback_states m'.store k }

pub start-IsMirrored :
    (now : ℕ) (w : String) (m : FailoverManager)
    → IsMirrored m
    → IsMirrored (start_failback now w m).1
unfolding start_failback
start-IsMirrored now w m h = elim (Option-cases (Dict.get m.workers w)) [
  | inl e ↦ rw (start_failback, e) h
  | inr (wr, e) ↦
      rw (start_failback, e)
        (ended now w (keep (is_due_back w m) m.partition_owner)
          (record m {
            workers = Dict.put m.workers w (record wr { status = active; last_heartbeat = now });
          })
          (record { keyed = h.keyed; mirror = h.mirror }))
]
