-- ===== src/Heuristic/Dlq/Retention.antt =====
-- heuristic/dlq.py: what `purge_expired` leaves in the queue.
use csdlpt.Prelude.{
  ℕ, ◌+◌, ◌≡◌, refl, ◌∙◌, arith, inl, inr, Bool, true, false, not, Option, none, some, List, [],
  ◌∷◌, ℤ, pos, ◌<ℤ◌, eqb_ℤ_iff, leb_ℤ, ◌==◌, keep, length, All, Bool-cases, string_eq,
}
use csdlpt.Prelude.Dict.{beq_refl}
use csdlpt.Heuristic.Dlq.Pipeline.{
  DlqEntry, DlqPipeline, same_entry, same_response, remove_entry, remove_entries, is_expired,
  cutoff, purge_expired,
}

same_entry_refl : (e : DlqEntry) → same_entry e e ≡ true
unfolding same_entry
same_entry_refl e = ground (
  arith,
  beq_refl e.event_id,
  beq_refl e.worker_id,
  eqb_ℤ_iff e.T_event e.T_event,
  eqb_ℤ_iff e.lag e.lag,
  eqb_ℤ_iff e.W_h_at_arrival e.W_h_at_arrival,
  eqb_ℤ_iff e.lateness e.lateness,
  same_response_refl e.response,
)
  where
    same_response_refl : (o : Option ℤ) → same_response o o ≡ true
    same_response_refl none = refl
    same_response_refl (some a) = (eqb_ℤ_iff a a).1 refl

same_entry-arrival : (x e : DlqEntry) → same_entry x e ≡ true → x.arrival_time ≡ e.arrival_time
unfolding same_entry
same_entry-arrival x e h = ground arith

remove_list : List DlqEntry → List DlqEntry → List DlqEntry
remove_list [] l = l
remove_list (e ∷ es) l = remove_list es (remove_entry e l)

remove_entries-entries :
    (es : List DlqEntry) (p : DlqPipeline)
    → (remove_entries es p).entries ≡ remove_list es p.entries
unfolding remove_entries remove_list
remove_entries-entries [] p = refl
remove_entries-entries (e ∷ es) p = remove_entries-entries es _

module _ (c : ℕ) where
  Expired : DlqEntry → Type 0
  Expired e = is_expired c e ≡ true

  keep-Expired : (l : List DlqEntry) → All Expired (keep (is_expired c) l)
  unfolding keep Expired
  keep-Expired [] = tt
  keep-Expired (x ∷ l) = ground (arith, keep-Expired l)

  -- Removing expired entries passes over one that is not.
  remove_list-fresh :
      (es : List DlqEntry) (x : DlqEntry) (l : List DlqEntry)
      → All Expired es
      → is_expired c x ≡ false
      → remove_list es (x ∷ l) ≡ x ∷ remove_list es l
  unfolding remove_list Expired remove_entry is_expired
  remove_list-fresh [] x l h k = refl
  remove_list-fresh (e ∷ es) x l h k = elim (Bool-cases (same_entry x e)) [
    | inl same ↦ ground (arith, same_entry-arrival x e same)
    | inr differ ↦ rw differ (remove_list-fresh es x (remove_entry e l) h.1 k)
  ]

  remove_list-keep :
      (l : List DlqEntry)
      → remove_list (keep (is_expired c) l) l ≡ keep (λ e. not (is_expired c e)) l
  unfolding remove_list keep remove_entry
  remove_list-keep [] = refl
  remove_list-keep (x ∷ l) = ground (
    arith,
    remove_list-keep l,
    same_entry_refl x,
    keep-Expired l,
    remove_list-fresh (keep (is_expired c) l) x l,
  )

keep_empty : (t : DlqEntry → Bool) (l : List DlqEntry) → length l == 0 ≡ true → l ≡ keep t l
unfolding keep
keep_empty t [] h = refl
keep_empty t (x ∷ l) h = ground arith

length-keep-not :
    (t : DlqEntry → Bool) (l : List DlqEntry)
    → length (keep t l) + length (keep (λ e. not (t e)) l) ≡ length l
unfolding keep
length-keep-not t [] = omega arith
length-keep-not t (x ∷ l) = ground (arith, length-keep-not t l)

-- With a positive retention, `purge_expired` leaves exactly the entries that did not arrive before the
-- cutoff, in their order, and answers how many it removed.
pub purge_expired_lem :
    (now : ℕ) (p : DlqPipeline)
    → pos 0 <ℤ p.retention_days
    → ((purge_expired now p).1.entries ≡ keep (λ e. not (is_expired (cutoff now p) e)) p.entries)
      × ((purge_expired now p).0 + length (purge_expired now p).1.entries ≡ length p.entries)
unfolding purge_expired
purge_expired_lem now p h = elim (Bool-cases (length p.entries == 0)) [
  | inl empty ↦
      rw empty (keep_empty (λ e. not (is_expired (cutoff now p) e)) p.entries empty, omega arith)
  | inr some_entry ↦
      rw (some_entry, positive)
        (purged, rw purged (length-keep-not (is_expired (cutoff now p)) p.entries))
]
  where
    positive : leb_ℤ p.retention_days (pos 0) ≡ false
    positive = ground arith

    purged :
        (remove_entries (keep (is_expired (cutoff now p)) p.entries) p).entries
        ≡ keep (λ e. not (is_expired (cutoff now p) e)) p.entries
    purged =
        remove_entries-entries (keep (is_expired (cutoff now p)) p.entries) p
        ∙ remove_list-keep (cutoff now p) p.entries
