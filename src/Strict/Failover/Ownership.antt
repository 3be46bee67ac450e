-- ===== src/Strict/Failover/Ownership.antt =====
-- strict/failover.py: who owns a partition after `reassign_failed_partitions`.
use csdlpt.Prelude.{
  ℕ, zero, suc, ◌≡◌, ◌≢◌, ◌&&◌, ◌⊎◌, inl, inr, refl, ◌∙◌, sym, Bool, true, false, not, String,
  Option, none, some, List, [], ◌∷◌, nat_eq, string_eq, elem, if◌then◌else◌, arith, ◌%◌, length,
  Bool-cases, Option-cases,
}
use csdlpt.Prelude.Dict
use csdlpt.Prelude.Dict.{Dict}
use csdlpt.Prelude.Sort.{sort, elem-sort_by}
use csdlpt.Common.Types.{
  PartitionState, reassigning, orphaned, WorkerStatus, active, stale, idle, failed,
}
use csdlpt.Strict.Failover.State.{
  FailoverManager, WorkerRecord, log_event, notify, owns, update_worker, alive_workers, is_alive,
}
use csdlpt.Strict.Failover.Membership.{is_state}
use csdlpt.Strict.Failover.Reassign.{
  is_gone, is_orphan, orphans, mark_orphaned, pick, by_id, assign, target_of, give, assign_all,
  reassign_to, reassign_failed_partitions,
}

-- The partition has an owner that is known and not failed.
unfoldable pub is_served : FailoverManager → ℕ → Bool
is_served m pid = elim (Dict.get m.partition_owner pid) [
  | none ↦ false
  | some w ↦ not (is_gone (Dict.get m.workers w))
]

gone-update :
    (pid : ℕ) (w v : String) (d : Dict String WorkerRecord)
    → is_gone (Dict.get (update_worker (owns pid) w d) v) ≡ is_gone (Dict.get d v)
unfolding update_worker
gone-update pid w v d = elim (Option-cases (Dict.get d w)) [
  | inl e ↦ rw (update_worker, e)
  | inr (wr, e) ↦ ground (arith, e, string_eq.beq_iff w v, Dict.get-put d w v (owns pid wr))
]

elem-pick : (d : String) (l : List String) (n : ℕ) → (pick d l n ≡ d) ⊎ (elem (pick d l n) l ≡ true)
unfolding pick elem
elem-pick d [] n = inl refl
elem-pick d (w ∷ l) zero = inr (rw (Dict.beq_refl w))
elem-pick d (w ∷ l) (suc n) = ground (arith, elem-pick d l n)

elem-target : (w : String) (ws : List String) (i : ℕ) → elem (target_of w ws i) (w ∷ ws) ≡ true
unfolding elem
elem-target w ws i = ground (
  arith,
  string_eq.beq_iff w (target_of w ws i),
  Dict.beq_refl w,
  elem-pick w (w ∷ ws) (i % length (w ∷ ws)),
)

-- Each worker of a list is known and not failed.
unfoldable pub AllServe : FailoverManager → List String → Type 0
AllServe m l = (w : String) → elem w l ≡ true → is_gone (Dict.get m.workers w) ≡ false

module _ (logs : Bool) (now : ℕ) where
  give-owner :
      (t : String) (pid j : ℕ) (m : FailoverManager)
      → Dict.get (give logs now t pid m).partition_owner j
        ≡ (if nat_eq.beq pid j then some t else Dict.get m.partition_owner j)
  unfolding give assign notify log_event
  give-owner t pid j m = ground (arith, Dict.get-put m.partition_owner pid j t)

  give-state :
      (t : String) (pid j : ℕ) (m : FailoverManager)
      → Dict.get (give logs now t pid m).partition_state j
        ≡ (if nat_eq.beq pid j then some reassigning else Dict.get m.partition_state j)
  unfolding give assign notify log_event
  give-state t pid j m = ground (arith, Dict.get-put m.partition_state pid j reassigning)

  give-pending :
      (t : String) (pid j : ℕ) (m : FailoverManager)
      → Dict.get (give logs now t pid m).pending_reassignments j
        ≡ (if nat_eq.beq pid j then some t else Dict.get m.pending_reassignments j)
  unfolding give assign notify log_event
  give-pending t pid j m = ground (arith, Dict.get-put m.pending_reassignments pid j t)

  give-AllServe :
      (t : String) (pid : ℕ) (l : List String) (m : FailoverManager)
      → AllServe m l
      → AllServe (give logs now t pid m) l
  unfolding AllServe give assign notify log_event
  give-AllServe t pid l m h w e = ground (arith, gone-update pid t w m.workers, h w e)

-- The partition is on its way to one of the workers of the list.
pub record IsGiven (m : FailoverManager) (pid : ℕ) (l : List String) : Type 0 where
  pub target : String
  pub chosen : elem target l ≡ true
  pub owner : Dict.get m.partition_owner pid ≡ some target
  pub state : Dict.get m.partition_state pid ≡ some reassigning
  pub pending : Dict.get m.pending_reassignments pid ≡ some target

-- What the reassignment of others leaves.
pub record IsSame (m m' : FailoverManager) (pid : ℕ) : Type 0 where
  pub owner : Dict.get m'.partition_owner pid ≡ Dict.get m.partition_owner pid
  pub state : Dict.get m'.partition_state pid ≡ Dict.get m.partition_state pid
  pub pending : Dict.get m'.pending_reassignments pid ≡ Dict.get m.pending_reassignments pid

module _ (logs : Bool) (now : ℕ) where
  give-IsSame :
      (t : String) (pid j : ℕ) (m : FailoverManager)
      → nat_eq.beq pid j ≡ false
      → IsSame m (give logs now t pid m) j
  give-IsSame t pid j m e = record {
    owner = rw (give-owner logs now t pid j m, e);
    state = rw (give-state logs now t pid j m, e);
    pending = rw (give-pending logs now t pid j m, e);
  }

  give-IsGiven :
      (t : String) (pid j : ℕ) (l : List String) (m : FailoverManager)
      → elem t l ≡ true
      → (nat_eq.beq pid j ≡ true) ⊎ IsGiven m j l
      → IsGiven (give logs now t pid m) j l
  give-IsGiven t pid j l m h c = elim (Bool-cases (nat_eq.beq pid j)) [
    | inl e ↦ record {
      target = t;
      chosen = h;
      owner = rw (give-owner logs now t pid j m, e);
      state = rw (give-state logs now t pid j m, e);
      pending = rw (give-pending logs now t pid j m, e);
    }
    | inr e ↦ elim c [
      | inl k ↦ cc
      | inr g ↦ record {
        target = g.target;
        chosen = g.chosen;
        owner = (give-IsSame t pid j m e).owner ∙ g.owner;
        state = (give-IsSame t pid j m e).state ∙ g.state;
        pending = (give-IsSame t pid j m e).pending ∙ g.pending;
      }
    ]
  ]

  first_or {κ} :
      {P : Type κ} (pid : ℕ) (l : List ℕ) (j : ℕ)
      → elem j l ≡ false
      → (elem j (pid ∷ l) ≡ true) ⊎ P
      → (nat_eq.beq pid j ≡ true) ⊎ P
  unfolding elem
  first_or pid l j e (inr g) = inr g
  first_or pid l j e (inl h) = ground arith

  pub assign_all-IsGiven :
      (w : String) (ws : List String) (i : ℕ) (l : List ℕ) (j : ℕ) (m : FailoverManager)
      → (elem j l ≡ true) ⊎ IsGiven m j (w ∷ ws)
      → IsGiven (assign_all logs now w ws i l m) j (w ∷ ws)
  unfolding assign_all elem
  assign_all-IsGiven w ws i [] j m (inl h) = cc
  assign_all-IsGiven w ws i [] j m (inr g) = g
  assign_all-IsGiven w ws i (pid ∷ l) j m c =
      assign_all-IsGiven w ws (suc i) l j (give logs now (target_of w ws i) pid m)
        (elim (Bool-cases (elem j l)) [
          | inl e ↦ inl e
          | inr e ↦ inr (
              give-IsGiven (target_of w ws i) pid j (w ∷ ws) m (elem-target w ws i)
                (first_or pid l j e c))
        ])

  not_first :
      (pid : ℕ) (l : List ℕ) (j : ℕ)
      → elem j (pid ∷ l) ≡ false
      → (nat_eq.beq pid j ≡ false) × (elem j l ≡ false)
  unfolding elem
  not_first pid l j e = ground arith

  pub assign_all-IsSame :
      (w : String) (ws : List String) (i : ℕ) (l : List ℕ) (j : ℕ) (m : FailoverManager)
      → elem j l ≡ false
      → IsSame m (assign_all logs now w ws i l m) j
  unfolding assign_all elem
  assign_all-IsSame w ws i [] j m h = record { owner = refl; state = refl; pending = refl }
  assign_all-IsSame w ws i (pid ∷ l) j m h =
      let m' = give logs now (target_of w ws i) pid m in
      let k = not_first pid l j h in
      let g = give-IsSame (target_of w ws i) pid j m k.0 in
      let r = assign_all-IsSame w ws (suc i) l j m' k.1 in
      record {
        owner = r.owner ∙ g.owner;
        state = r.state ∙ g.state;
        pending = r.pending ∙ g.pending;
      }

  pub assign_all-AllServe :
      (w : String) (ws : List String) (i : ℕ) (l : List ℕ) (s : List String) (m : FailoverManager)
      → AllServe m s
      → AllServe (assign_all logs now w ws i l m) s
  unfolding assign_all
  assign_all-AllServe w ws i [] s m h = h
  assign_all-AllServe w ws i (pid ∷ l) s m h =
      assign_all-AllServe w ws (suc i) l s (give logs now (target_of w ws i) pid m)
        (give-AllServe logs now (target_of w ws i) pid s m h)

mark_orphaned_others :
    (l : List ℕ) (j : ℕ) (d : Dict ℕ PartitionState)
    → elem j l ≡ false
    → Dict.get (mark_orphaned l d) j ≡ Dict.get d j
unfolding mark_orphaned
mark_orphaned_others [] j d h = refl
mark_orphaned_others (pid ∷ l) j d h =
    let k = not_first true 0 pid l j h in
    mark_orphaned_others l j (Dict.put d pid orphaned) k.1 ∙ rw (Dict.get-put d pid j orphaned, k.0)

served_by :
    (o : Option WorkerRecord)
    → elim o [ none ↦ false | some wr ↦ is_alive wr ] ≡ true
    → is_gone o ≡ false
served_by none e = cc
served_by (some wr) e = ground arith

-- A worker that `alive_workers` lists is known and not failed.
alive_serve : (m : FailoverManager) → Dict.IsDict m.workers → AllServe m (alive_workers m)
unfolding AllServe alive_workers
alive_serve m h w e =
    let k = sym (Dict.elem-keys (λ p. is_alive p.1) m.workers w h) ∙ e in
    served_by (Dict.get m.workers w) k

orphans_lem :
    (m : FailoverManager) (pid : ℕ)
    → Dict.IsDict m.partition_owner
    → elem pid (orphans m)
      ≡ elim (Dict.get m.partition_owner pid) [ none ↦ false | some w ↦ is_orphan m (pid, w) ]
unfolding orphans
orphans_lem m pid h = Dict.elem-keys (is_orphan m) m.partition_owner pid h

is_listed :
    {b : Bool} (m : FailoverManager) (pid : ℕ) (o : String)
    → Dict.IsDict m.partition_owner
    → Dict.get m.partition_owner pid ≡ some o
    → is_orphan m (pid, o) ≡ b
    → elem pid (orphans m) ≡ b
is_listed m pid o h e k = orphans_lem m pid h ∙ rw (e, k)

served-IsGiven :
    (m : FailoverManager) (pid : ℕ) (l : List String)
    → IsGiven m pid l
    → AllServe m l
    → is_served m pid ≡ true
unfolding is_served AllServe
served-IsGiven m pid l g h = ground (arith, g.owner, h g.target g.chosen)

served-IsSame :
    (m : FailoverManager) (pid : ℕ) (o : String)
    → Dict.get m.partition_owner pid ≡ some o
    → is_gone (Dict.get m.workers o) ≡ false
    → is_served m pid ≡ true
unfolding is_served
served-IsSame m pid o e g = ground arith

all_serve :
    (m : FailoverManager) (l : List String) (w : String)
    → elem w l ≡ true
    → AllServe m l
    → is_gone (Dict.get m.workers w) ≡ false
unfolding AllServe
all_serve m l w e h = h w e

only : (o : String) → elem o (o ∷ []) ≡ true
unfolding elem
only o = rw (Dict.beq_refl o)

only_serves :
    (m : FailoverManager) (o : String)
    → is_gone (Dict.get m.workers o) ≡ false
    → AllServe m (o ∷ [])
unfolding AllServe elem
only_serves m o g w e = ground (arith, string_eq.beq_iff o w)

-- By the workers that are alive: the orphans are given away, the others are left as they are.
reassign_to-IsGiven :
    (now : ℕ) (alive : List String) (l : List ℕ) (m : FailoverManager) (pid : ℕ) (a : String)
    → elem a alive ≡ true
    → elem pid l ≡ true
    → AllServe m alive
    → IsGiven (reassign_to now alive l m).1 pid alive × AllServe (reassign_to now alive l m).1 alive
unfolding reassign_to elem
reassign_to-IsGiven now [] l m pid a h e s = cc
reassign_to-IsGiven now (w ∷ ws) l m pid a h e s = (
  assign_all-IsGiven true now w ws 0 (sort by_id l) pid m (inl (elem-sort_by by_id pid l ∙ e)),
  assign_all-AllServe true now w ws 0 (sort by_id l) (w ∷ ws) m s,
)

reassign_to-IsSame :
    (now : ℕ) (alive : List String) (l : List ℕ) (m : FailoverManager) (pid : ℕ)
    → elem pid l ≡ false
    → IsSame m (reassign_to now alive l m).1 pid
unfolding reassign_to
reassign_to-IsSame now [] l m pid e = record { owner = refl; state = refl; pending = refl }
reassign_to-IsSame now (w ∷ ws) l m pid e =
    assign_all-IsSame true now w ws 0 (sort by_id l) pid m (elem-sort_by by_id pid l ∙ e)

-- A partition whose owner is unknown or failed, and which is not being reassigned, is given by
-- `reassign_failed_partitions` to one of the alive workers, when there is one: it is REASSIGNING, and
-- waits for this worker, its owner, which is still known and not failed.
pub reassign-IsGiven :
    (now : ℕ) (m : FailoverManager) (pid : ℕ) (o a : String)
    → Dict.IsDict m.workers
    → Dict.IsDict m.partition_owner
    → elem a (alive_workers m) ≡ true
    → Dict.get m.partition_owner pid ≡ some o
    → is_orphan m (pid, o) ≡ true
    → IsGiven (reassign_failed_partitions now m).1 pid (alive_workers m)
      × AllServe (reassign_failed_partitions now m).1 (alive_workers m)
unfolding reassign_failed_partitions AllServe
reassign-IsGiven now m pid o a hw ho ha e k =
    reassign_to-IsGiven now (alive_workers m) (orphans m)
      (record m { partition_state = mark_orphaned (orphans m) m.partition_state }) pid a ha
      (is_listed m pid o ho e k) (alive_serve m hw)

-- The partition is being reassigned, or its owner is a known worker that has not failed.
pub data StaysWith (m : FailoverManager) (pid : ℕ) (o : String) : Type 0 where
  in_transit : Dict.get m.partition_state pid ≡ some reassigning → StaysWith m pid o
  in_hand :
      (wr : WorkerRecord) → Dict.get m.workers o ≡ some wr → wr.status ≢ failed → StaysWith m pid o

stays_put :
    (m : FailoverManager) (pid : ℕ) (o : String) → StaysWith m pid o → is_orphan m (pid, o) ≡ false
unfolding is_orphan
stays_put m pid o (in_transit e) = ground (arith, e)
stays_put m pid o (in_hand wr e h) = rw e (not_gone wr.status h)
  where
    not_gone :
        (st : WorkerStatus)
        → st ≢ failed
        → (elim st [ active ↦ false | stale ↦ false | idle ↦ false | failed ↦ true ]
            && not (is_state reassigning (Dict.get m.partition_state pid)))
          ≡ false
    not_gone active k = refl
    not_gone stale k = refl
    not_gone idle k = refl
    not_gone failed k = absurd (k refl)

others-IsSame :
    (now : ℕ) (m : FailoverManager) (pid : ℕ) (o : String)
    → Dict.IsDict m.partition_owner
    → Dict.get m.partition_owner pid ≡ some o
    → is_orphan m (pid, o) ≡ false
    → IsSame m (reassign_failed_partitions now m).1 pid
unfolding reassign_failed_partitions
others-IsSame now m pid o ho e k =
    let out = is_listed m pid o ho e k in
    let m₁ = record m { partition_state = mark_orphaned (orphans m) m.partition_state } in
    let r = reassign_to-IsSame now (alive_workers m) (orphans m) m₁ pid out in
    record {
      owner = r.owner;
      state = r.state ∙ mark_orphaned_others (orphans m) pid m.partition_state out;
      pending = r.pending;
    }

-- A partition that is REASSIGNING, also when its owner has failed or is unknown, or whose owner is a known
-- worker that has not failed, keeps its owner, state and pending worker in
-- `reassign_failed_partitions`.
pub reassign-IsSame :
    (now : ℕ) (m : FailoverManager) (pid : ℕ) (o : String)
    → Dict.IsDict m.partition_owner
    → Dict.get m.partition_owner pid ≡ some o
    → StaysWith m pid o
    → IsSame m (reassign_failed_partitions now m).1 pid
reassign-IsSame now m pid o ho e k = others-IsSame now m pid o ho e (stays_put m pid o k)

reassign-AllServe :
    (now : ℕ) (m : FailoverManager) (s : List String)
    → AllServe m s
    → AllServe (reassign_failed_partitions now m).1 s
unfolding reassign_failed_partitions reassign_to AllServe
reassign-AllServe now m s h =
    elim (alive_workers m)
      as (λ alive.
        AllServe
          (reassign_to now alive (orphans m)
            (record m { partition_state = mark_orphaned (orphans m) m.partition_state })).1
          s) [
            | [] ↦ h
            | w ∷ ws ↦
                assign_all-AllServe true now w ws 0 (sort by_id (orphans m)) s
                  (record m { partition_state = mark_orphaned (orphans m) m.partition_state }) h
          ]

-- While a worker is alive, each partition that has an owner and is not REASSIGNING has, after
-- `reassign_failed_partitions`, an owner that is known and not failed.
pub reassign_serves :
    (now : ℕ) (m : FailoverManager) (pid : ℕ) (o a : String)
    → Dict.IsDict m.workers
    → Dict.IsDict m.partition_owner
    → elem a (alive_workers m) ≡ true
    → Dict.get m.partition_owner pid ≡ some o
    → is_state reassigning (Dict.get m.partition_state pid) ≡ false
    → is_served (reassign_failed_partitions now m).1 pid ≡ true
unfolding is_orphan
reassign_serves now m pid o a hw ho ha e k = elim (Bool-cases (is_gone (Dict.get m.workers o))) [
  | inl g ↦
      let r = reassign-IsGiven now m pid o a hw ho ha e (rw (g, k)) in
      served-IsGiven (reassign_failed_partitions now m).1 pid (alive_workers m) r.0 r.1
  | inr g ↦
      let r = others-IsSame now m pid o ho e (rw (g)) in
      served-IsSame (reassign_failed_partitions now m).1 pid o (r.owner ∙ e) (
        all_serve (reassign_failed_partitions now m).1 (o ∷ []) o (only o)
          (reassign-AllServe now m (o ∷ []) (only_serves m o g)))
]
