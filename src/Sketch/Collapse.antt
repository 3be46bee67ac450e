-- ===== src/Sketch/Collapse.antt =====
-- local_ddsketch/sketch.py: collapsing keeps the counts and brings the buckets under the limit.
use csdlpt.Prelude.{
  ℕ, zero, suc, ◌+◌, ◌≤◌, ◌≡◌, refl, sym, ◌∙◌, ap, arith, inl, inr, true, false, List, [], ◌∷◌, ℤ,
  int_eq, elem, eqb_ℤ, eqb_ℤ_iff, ltb, length, Bool-cases,
}
use csdlpt.Prelude.Dict
use csdlpt.Prelude.Dict.{Dict, IsDict, get-put, put-IsDict, remove-IsDict, total-put, total-remove}
use csdlpt.Prelude.Sort.{sort, elem-sort, Distinct, sort-Distinct, length-sort}
use csdlpt.Sketch.Buckets.{put_more, collapse_lowest, collapse, maybe_collapse}

-- The counts of all buckets, summed.
abbrev pub sum : Dict ℤ ℕ → ℕ
sum = Dict.total (λ n. n)

elem-keys : (k : ℤ) (b : Dict ℤ ℕ) → elem k (Dict.keys b) ≡ Dict.has b k
unfolding elem Dict.get
elem-keys k [] = refl
elem-keys k ((j, n) ∷ b) = ground (arith, elem-keys k b)

keys-Distinct : (b : Dict ℤ ℕ) → IsDict b → Distinct (Dict.keys b)
keys-Distinct [] h = tt
keys-Distinct ((k, n) ∷ b) h = ground (arith, elem-keys k b, keys-Distinct b h.1)

length-keys : (b : Dict ℤ ℕ) → length (Dict.keys b) ≡ length b
length-keys [] = refl
length-keys ((k, n) ∷ b) = ap suc (length-keys b)

length-total : (b : Dict ℤ ℕ) → Dict.total (λ n. 1) b ≡ length b
unfolding Dict.total
length-total [] = refl
length-total ((k, n) ∷ b) = omega (arith, length-total b)

pub put_more-sum : (b : Dict ℤ ℕ) (k : ℤ) (n : ℕ) → sum (put_more b k n) ≡ sum b + n
put_more-sum b k n = ground (arith, total-put (λ m. m) b k (Dict.get_or (Dict.get b k) 0 + n))

put_more-length :
    (b : Dict ℤ ℕ) (k : ℤ) (n : ℕ) → Dict.has b k ≡ true → length (put_more b k n) ≡ length b
put_more-length b k n h = ground (
  arith,
  total-put (λ m. 1) b k (Dict.get_or (Dict.get b k) 0 + n),
  length-total b,
  length-total (put_more b k n),
)

-- Two different buckets, folded into the second.
module _ (b : Dict ℤ ℕ) (lo hi : ℤ) (differ : eqb_ℤ hi lo ≡ false) (u : IsDict b) where
  folded : Dict ℤ ℕ
  folded = put_more b hi (Dict.get_or (Dict.get b lo) 0)

  folded-lo : Dict.get folded lo ≡ Dict.get b lo
  unfolding folded
  folded-lo =
      ground
        (arith, get-put b hi lo (Dict.get_or (Dict.get b hi) 0 + Dict.get_or (Dict.get b lo) 0))

  folded-IsDict : IsDict folded
  unfolding folded
  folded-IsDict = put-IsDict b hi _ u

  fold-sum : sum (Dict.remove folded lo) ≡ sum b
  unfolding folded
  fold-sum = ground (
    arith,
    total-remove (λ m. m) folded lo folded-IsDict,
    put_more-sum b hi (Dict.get_or (Dict.get b lo) 0),
    folded-lo,
  )

  fold-length :
      Dict.has b hi ≡ true → Dict.has b lo ≡ true → suc (length (Dict.remove folded lo)) ≡ length b
  unfolding folded
  fold-length h k = ground (
    arith,
    total-remove (λ m. 1) folded lo folded-IsDict,
    put_more-length b hi (Dict.get_or (Dict.get b lo) 0) h,
    length-total folded,
    length-total (Dict.remove folded lo),
    folded-lo,
  )

  fold-IsDict : IsDict (Dict.remove folded lo)
  fold-IsDict = remove-IsDict folded lo folded-IsDict

-- Both the counts and the keys are sound, and nothing was lost.
abbrev pub Same : Dict ℤ ℕ → Dict ℤ ℕ → Type 0
Same b c = (sum c ≡ sum b) × IsDict c

-- One round with the sorted indices as a list of its own.
lowest-Same : (l : List ℤ) (b : Dict ℤ ℕ) → Distinct l → IsDict b → Same b (collapse_lowest l b)
unfolding collapse_lowest
lowest-Same [] b d u = (refl, u)
lowest-Same (lo ∷ []) b d u = (refl, u)
lowest-Same (lo ∷ hi ∷ l) b d u =
    unfold folded in (fold-sum b lo hi differ u, fold-IsDict b lo hi differ u)
  where
    differ : eqb_ℤ hi lo ≡ false
    differ = unfold elem in ground arith

lowest-length :
    (l : List ℤ) (b : Dict ℤ ℕ)
    → Distinct l
    → IsDict b
    → ((k : ℤ) → elem k l ≡ true → Dict.has b k ≡ true)
    → 2 ≤ length l
    → suc (length (collapse_lowest l b)) ≡ length b
unfolding collapse_lowest
lowest-length [] b d u m h = ground arith
lowest-length (lo ∷ []) b d u m h = ground arith
lowest-length (lo ∷ hi ∷ l) b d u m h =
    unfold folded in fold-length b lo hi differ u (m hi hi_in) (m lo lo_in)
  where
    differ : eqb_ℤ hi lo ≡ false
    differ = unfold elem in ground arith

    lo_in : elem lo (lo ∷ hi ∷ l) ≡ true
    lo_in = unfold elem in ground (arith, eqb_ℤ_iff lo lo)

    hi_in : elem hi (lo ∷ hi ∷ l) ≡ true
    hi_in = unfold elem in ground (arith, eqb_ℤ_iff hi hi)

round-Same : (b : Dict ℤ ℕ) → IsDict b → Same b (collapse_lowest (sort (λ i. i) (Dict.keys b)) b)
round-Same b u =
    lowest-Same (sort (λ i. i) (Dict.keys b)) b (sort-Distinct (Dict.keys b) (keys-Distinct b u)) u

round-length :
    (b : Dict ℤ ℕ)
    → IsDict b
    → 2 ≤ length b
    → suc (length (collapse_lowest (sort (λ i. i) (Dict.keys b)) b)) ≡ length b
round-length b u h =
    lowest-length (sort (λ i. i) (Dict.keys b)) b (sort-Distinct (Dict.keys b) (keys-Distinct b u))
      u (λ k m. sym (elem-sort k (Dict.keys b) ∙ elem-keys k b) ∙ m)
      (omega (arith, length-sort (λ i. i) (Dict.keys b), length-keys b))

collapse-Same :
    (fuel max_buckets : ℕ) (b : Dict ℤ ℕ) → IsDict b → Same b (collapse fuel max_buckets b)
unfolding collapse
collapse-Same zero max_buckets b u = (refl, u)
collapse-Same (suc fuel) max_buckets b u = elim (Bool-cases (ltb max_buckets (length b))) [
  | inl over ↦ rw over (
    (collapse-Same fuel max_buckets next (round-Same b u).1).0 ∙ (round-Same b u).0,
    (collapse-Same fuel max_buckets next (round-Same b u).1).1,
  )
  | inr fits ↦ rw fits (refl, u)
]
  where
    next : Dict ℤ ℕ
    next = collapse_lowest (sort (λ i. i) (Dict.keys b)) b

collapse-length :
    (fuel max_buckets : ℕ) (b : Dict ℤ ℕ)
    → IsDict b
    → 2 ≤ max_buckets
    → length b ≤ fuel
    → length (collapse fuel max_buckets b) ≤ max_buckets
unfolding collapse
collapse-length zero max_buckets b u m f = omega arith
collapse-length (suc fuel) max_buckets b u m f = elim (Bool-cases (ltb max_buckets (length b))) [
  | inl over ↦ rw over (
      collapse-length fuel max_buckets next (round-Same b u).1 m (ground (arith, round-length b u)))
  | inr fits ↦ rw fits (ground arith)
]
  where
    next : Dict ℤ ℕ
    next = collapse_lowest (sort (λ i. i) (Dict.keys b)) b

-- `_maybe_collapse` loses no count, and brings the number of the buckets under the limit, if that is
-- at least 2: the fuel is enough.
pub maybe_collapse_lem :
    (max_buckets : ℕ) (b : Dict ℤ ℕ)
    → IsDict b
    → 2 ≤ max_buckets
    → (sum (maybe_collapse max_buckets b) ≡ sum b)
      × IsDict (maybe_collapse max_buckets b)
      × (length (maybe_collapse max_buckets b) ≤ max_buckets)
unfolding maybe_collapse
maybe_collapse_lem max_buckets b u m =
    let s = collapse-Same (length b) max_buckets b u in
    (s.0, s.1, collapse-length (length b) max_buckets b u m (omega arith))
