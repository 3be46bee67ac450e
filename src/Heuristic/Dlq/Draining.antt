-- ===== src/Heuristic/Dlq/Draining.antt =====
-- heuristic/dlq.py: what `drain` takes and what it leaves.
use csdlpt.Prelude.{
  ℕ, zero, suc, ◌+◌, ◌≤◌, ◌≡◌, refl, sym, ◌∙◌, ap, arith, inl, inr, Bool, true, List, [], ◌∷◌, ◌++◌,
  ltb, ◌==◌, if◌then◌else◌, keep, length, take, drop, take-append-drop, All, Bool-cases,
}
use csdlpt.Prelude.Sort.{insert, sort}
use csdlpt.Heuristic.Dlq.Pipeline.{DlqEntry, DlqPipeline, by_arrival, drain}

-- How many entries pass a test.
abbrev pub tally : (DlqEntry → Bool) → List DlqEntry → ℕ
tally t l = length (keep t l)

tally-append :
    (t : DlqEntry → Bool) (xs ys : List DlqEntry) → tally t (xs ++ ys) ≡ tally t xs + tally t ys
unfolding keep
tally-append t [] ys = omega arith
tally-append t (x ∷ xs) ys = ground (arith, tally-append t xs ys)

tally-insert :
    (t : DlqEntry → Bool) (x : DlqEntry) (l : List DlqEntry)
    → tally t (insert by_arrival x l) ≡ tally t (x ∷ l)
unfolding keep insert
tally-insert t x [] = refl
tally-insert t x (y ∷ l) = ground (arith, tally-insert t x l)

tally-sort : (t : DlqEntry → Bool) (l : List DlqEntry) → tally t (sort by_arrival l) ≡ tally t l
unfolding keep sort
tally-sort t [] = refl
tally-sort t (x ∷ l) = ground (arith, tally-insert t x (sort by_arrival l), tally-sort t l)

tally_all : (l : List DlqEntry) → tally (λ e. true) l ≡ length l
unfolding keep
tally_all [] = refl
tally_all (x ∷ l) = ap suc (tally_all l)

-- No entry of the list arrived before `n`.
abbrev pub After : ℕ → List DlqEntry → Type 0
After n = All (λ y. n ≤ y.arrival_time)

Ordered : List DlqEntry → Type 0
Ordered [] = Unit {0}
Ordered (x ∷ l) = After x.arrival_time l × Ordered l

After-insert :
    (n : ℕ) (x : DlqEntry) (l : List DlqEntry)
    → n ≤ x.arrival_time
    → After n l
    → After n (insert by_arrival x l)
unfolding insert
After-insert n x [] h k = (h, tt)
After-insert n x (y ∷ l) h k = ground (arith, After-insert n x l h)

After-weaken : (n m : ℕ) (l : List DlqEntry) → m ≤ n → After n l → After m l
After-weaken n m [] h k = tt
After-weaken n m (y ∷ l) h k = (omega (arith, k.0), After-weaken n m l h k.1)

insert-Ordered : (x : DlqEntry) (l : List DlqEntry) → Ordered l → Ordered (insert by_arrival x l)
unfolding insert Ordered
insert-Ordered x [] o = (tt, tt)
insert-Ordered x (y ∷ l) o = ground (
  arith,
  insert-Ordered x l,
  After-insert y.arrival_time x l,
  After-weaken y.arrival_time x.arrival_time l,
)

sort-Ordered : (l : List DlqEntry) → Ordered (sort by_arrival l)
unfolding sort Ordered
sort-Ordered [] = tt
sort-Ordered (x ∷ l) = insert-Ordered x (sort by_arrival l) (sort-Ordered l)

After-drop : (m n : ℕ) (l : List DlqEntry) → After m l → After m (drop n l)
After-drop m zero l h = h
After-drop m (suc n) [] h = tt
After-drop m (suc n) (x ∷ l) h = After-drop m n l h.1

-- Each entry of the first list arrived no later than each of the second.
abbrev pub Before : List DlqEntry → List DlqEntry → Type 0
Before xs ys = All (λ x. After x.arrival_time ys) xs

take-Before-drop : (n : ℕ) (l : List DlqEntry) → Ordered l → Before (take n l) (drop n l)
unfolding Ordered
take-Before-drop zero l o = tt
take-Before-drop (suc n) [] o = tt
take-Before-drop (suc n) (x ∷ l) o = (After-drop x.arrival_time n l o.0, take-Before-drop n l o.1)

length-take :
    (n : ℕ) (l : List DlqEntry) → length (take n l) ≡ (if ltb n (length l) then n else length l)
length-take zero [] = refl
length-take zero (x ∷ l) = ground arith
length-take (suc n) [] = ground arith
length-take (suc n) (x ∷ l) = ground (arith, length-take n l)

-- `drain` takes the oldest entries, `batch_size` of them or all if there are fewer: no entry is lost
-- or made up, as each test passes as often in the batch and the rest as in the queue before, and no
-- entry of the batch arrived after one that is left.
pub drain_lem :
    (batch_size : ℕ) (p : DlqPipeline) (t : DlqEntry → Bool)
    → let d = drain batch_size p in
      (tally t d.0 + tally t d.1.entries ≡ tally t p.entries)
      × (length d.0 ≡ (if ltb batch_size (length p.entries) then batch_size else length p.entries))
      × Before d.0 d.1.entries
unfolding drain
drain_lem batch_size p t = elim (Bool-cases (length p.entries == 0)) [
  | inl empty ↦ rw empty (unfold keep in omega arith, ground arith, tt)
  | inr some_entry ↦ rw some_entry (
    cut,
    length-take batch_size sorted ∙ (rw sorted_length refl),
    take-Before-drop batch_size sorted (sort-Ordered p.entries),
  )
]
  where
    sorted : List DlqEntry
    sorted = sort by_arrival p.entries

    sorted_length : length sorted ≡ length p.entries
    sorted_length = sym (tally_all sorted) ∙ tally-sort (λ e. true) p.entries ∙ tally_all p.entries

    cut : tally t (take batch_size sorted) + tally t (drop batch_size sorted) ≡ tally t p.entries
    cut =
        sym (tally-append t (take batch_size sorted) (drop batch_size sorted))
        ∙ ap (tally t) (take-append-drop batch_size sorted)
        ∙ tally-sort t p.entries
