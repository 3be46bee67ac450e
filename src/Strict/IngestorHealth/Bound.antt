-- ===== src/Strict/IngestorHealth/Bound.antt =====
-- strict/ingestor_health.py: what `W_meta_global` and the commits of the ingestors promise.
use csdlpt.Prelude.{
  ℕ, ◌≤◌, ◌≡◌, refl, ◌∙◌, ap, subst, true, false, String, Option, none, some, List, [], ◌∷◌, pos,
  string_eq, if◌then◌else◌, All, arith, Bool-cases, inl, inr, ltb,
}
use csdlpt.Prelude.Mark.{Mark, at, ◌⊑◌}
use csdlpt.Prelude.Dict
use csdlpt.Prelude.Dict.{Dict}
use csdlpt.Strict.Coordinator.Minimum.{minimum-le, minimum-le-All}
use csdlpt.Strict.IngestorHealth.{
  IngestorHealthMonitor, HealthRecord, Heartbeat, receive_heartbeat, commit, heard, new_record,
  judge, judge_all, has_say, commits, lowest, evaluate, is_silent,
}

lowest-All : (l : List Mark) → All (λ x. lowest l ⊑ x) l
unfolding lowest
lowest-All [] = tt
lowest-All (x ∷ xs) = (minimum-le x xs, minimum-le-All x xs)

head-bound :
    (W : Mark) (q : HealthRecord) (l : List Mark)
    → All (λ x. W ⊑ x) (if has_say q.status then at (pos q.last_T_commit) ∷ l else l)
    → has_say q.status ≡ true
    → W ⊑ at (pos q.last_T_commit)
head-bound W q l a h = (rw h at a).0

tail-bound :
    (W : Mark) (q : HealthRecord) (l : List Mark)
    → All (λ x. W ⊑ x) (if has_say q.status then at (pos q.last_T_commit) ∷ l else l)
    → All (λ x. W ⊑ x) l
tail-bound W q l a = elim (Bool-cases (has_say q.status)) [
  | inl e ↦ (rw e at a).1
  | inr e ↦ rw e at a
]

commits-bound :
    (W : Mark) (d : Dict String HealthRecord) (i : String) (r : HealthRecord)
    → All (λ x. W ⊑ x) (commits d)
    → Dict.get d i ≡ some r
    → has_say r.status ≡ true
    → W ⊑ at (pos r.last_T_commit)
unfolding commits Dict.get
commits-bound W [] i r a g h = cc
commits-bound W ((j, q) ∷ d) i r a g h = elim (Bool-cases (string_eq.beq j i)) [
  | inl e ↦
      let same : q ≡ r = ground (arith, e) in
      subst (λ x. W ⊑ at (pos x.last_T_commit)) same
        (head-bound W q (commits d) a (ap (λ x. has_say x.status) same ∙ h))
  | inr e ↦ commits-bound W d i r (tail-bound W q (commits d) a) (rw e at g) h
]

abbrev judged : ℕ → IngestorHealthMonitor → Option HealthRecord → Option HealthRecord
judged now m none = none
judged now m (some r) = some (record r { status = (judge now m r).0 })

get-judge_all :
    (now : ℕ) (m : IngestorHealthMonitor) (d : Dict String HealthRecord) (i : String)
    → Dict.get (judge_all now m d) i ≡ judged now m (Dict.get d i)
unfolding judge_all Dict.get
get-judge_all now m [] i = refl
get-judge_all now m ((j, q) ∷ d) i = elim (Bool-cases (string_eq.beq j i)) [
  | inl e ↦ rw e refl
  | inr e ↦ rw e (get-judge_all now m d i)
]

judge-say :
    (now : ℕ) (m : IngestorHealthMonitor) (r : HealthRecord)
    → is_silent now m r ≡ false
    → ltb m.critical_skew r.clock_skew_ms ≡ false
    → has_say (judge now m r).0 ≡ true
unfolding judge
judge-say now m r h k = ground (arith, h, k)

commit_mono :
    (now : ℕ) (hb : Heartbeat) (r : HealthRecord)
    → (r.last_T_commit ≤ (commit now hb r).last_T_commit)
commit_mono now hb r = ground arith

-- `W_meta_global` after `evaluate` is no larger than the last commit of each ingestor that was
-- heard of within the timeout and whose clock skew is not critical, stuck or not.
pub evaluate-bound :
    (now : ℕ) (W : Mark) (m : IngestorHealthMonitor) (i : String) (r : HealthRecord)
    → Dict.get m.ingestors i ≡ some r
    → is_silent now m r ≡ false
    → ltb m.critical_skew r.clock_skew_ms ≡ false
    → (evaluate now W m).1.W_meta_global ⊑ at (pos r.last_T_commit)
unfolding evaluate
evaluate-bound now W m i r g h k =
    commits-bound (lowest (commits (judge_all now m m.ingestors))) (judge_all now m m.ingestors) i
      (record r { status = (judge now m r).0 }) (lowest-All (commits (judge_all now m m.ingestors)))
      (get-judge_all now m m.ingestors i ∙ ap (judged now m) g) (judge-say now m r h k)

-- The last commit of an ingestor, 0 if it is unknown.
abbrev commit_of : Option HealthRecord → ℕ
commit_of none = 0
commit_of (some r) = r.last_T_commit

own-commit :
    (now : ℕ) (hb : Heartbeat) (o : Option HealthRecord)
    → commit_of o ≤ (commit now hb (heard now hb (Dict.get_or o (new_record hb)))).last_T_commit
own-commit now hb none = omega arith
own-commit now hb (some r) = commit_mono now hb (heard now hb r)

-- A commit that goes back is not taken: no heartbeat lowers the last commit of an ingestor.
receive_heartbeat-commit :
    (now : ℕ) (hb : Heartbeat) (m : IngestorHealthMonitor) (i : String)
    → commit_of (Dict.get m.ingestors i)
      ≤ commit_of (Dict.get (receive_heartbeat now hb m).ingestors i)
unfolding receive_heartbeat
receive_heartbeat-commit now hb m i = elim (Bool-cases (string_eq.beq hb.sender i)) [
  | inl e ↦
      let same : commit_of (Dict.get m.ingestors hb.sender) ≡ commit_of (Dict.get m.ingestors i) =
        ap (λ x. commit_of (Dict.get m.ingestors x)) ((string_eq.beq_iff hb.sender i).0 e) in
      let own = own-commit now hb (Dict.get m.ingestors hb.sender) in
      rw (Dict.get-put m.ingestors hb.sender i _, e) (omega (arith, same, own))
  | inr e ↦ rw (Dict.get-put m.ingestors hb.sender i _, e) (omega arith)
]
