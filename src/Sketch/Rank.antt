-- ===== src/Sketch/Rank.antt =====
-- local_ddsketch/sketch.py: the bucket that `quantile` answers with holds the wanted rank.
use csdlpt.Prelude.{
  ℕ, ◌+◌, ◌≤◌, ◌<◌, ◌≡◌, refl, arith, inl, inr, true, false, Option, none, some, [], ◌∷◌, ℤ, ◌≤ℤ◌,
  ltb_ℤ, leb_ℤ, leb, ltb, ◌==◌, if◌then◌else◌, All, Bool-cases,
}
use csdlpt.Prelude.Dict
use csdlpt.Prelude.Dict.{Dict}
use csdlpt.Prelude.Sort.{insert, sort}
use csdlpt.Sketch.Buckets.{Floats, DdSketch, find_bucket, rank_of, by_index, quantile}
use csdlpt.Sketch.Collapse.{sum}
use csdlpt.Sketch.Counts.{IsSketch}

-- The counts of the buckets up to an index, and of those below it.
unfoldable pub upto : ℤ → Dict ℤ ℕ → ℕ
upto i [] = 0
upto i ((k, n) ∷ b) = if leb_ℤ k i then n + upto i b else upto i b

unfoldable pub under : ℤ → Dict ℤ ℕ → ℕ
under i [] = 0
under i ((k, n) ∷ b) = if ltb_ℤ k i then n + under i b else under i b

From : ℤ → Dict ℤ ℕ → Type 0
From i = All (λ p. i ≤ℤ p.0)

Ascending : Dict ℤ ℕ → Type 0
unfolding From
Ascending [] = Unit {0}
Ascending ((k, n) ∷ b) = From k b × Ascending b

From-insert :
    (i k : ℤ) (n : ℕ) (b : Dict ℤ ℕ) → i ≤ℤ k → From i b → From i (insert by_index (k, n) b)
unfolding From insert
From-insert i k n [] h f = (h, tt)
From-insert i k n ((j, m) ∷ b) h f = ground (arith, From-insert i k n b h)

From-weaken : (i j : ℤ) (b : Dict ℤ ℕ) → i ≤ℤ j → From j b → From i b
unfolding From
From-weaken i j [] h f = tt
From-weaken i j ((k, n) ∷ b) h f = (omega (arith, f.0), From-weaken i j b h f.1)

insert-Ascending :
    (k : ℤ) (n : ℕ) (b : Dict ℤ ℕ) → Ascending b → Ascending (insert by_index (k, n) b)
unfolding From Ascending insert
insert-Ascending k n [] a = (tt, tt)
insert-Ascending k n ((j, m) ∷ b) a =
    ground (arith, insert-Ascending k n b, From-insert j k n b, From-weaken k j b)

sort-Ascending : (b : Dict ℤ ℕ) → Ascending (sort by_index b)
unfolding Ascending sort
sort-Ascending [] = tt
sort-Ascending ((k, n) ∷ b) = insert-Ascending k n (sort by_index b) (sort-Ascending b)

insert-upto :
    (i k : ℤ) (n : ℕ) (b : Dict ℤ ℕ) → upto i (insert by_index (k, n) b) ≡ upto i ((k, n) ∷ b)
unfolding upto insert
insert-upto i k n [] = refl
insert-upto i k n ((j, m) ∷ b) = ground (arith, insert-upto i k n b)

sort-upto : (i : ℤ) (b : Dict ℤ ℕ) → upto i (sort by_index b) ≡ upto i b
unfolding upto sort
sort-upto i [] = refl
sort-upto i ((k, n) ∷ b) = ground (arith, insert-upto i k n (sort by_index b), sort-upto i b)

insert-under :
    (i k : ℤ) (n : ℕ) (b : Dict ℤ ℕ) → under i (insert by_index (k, n) b) ≡ under i ((k, n) ∷ b)
unfolding under insert
insert-under i k n [] = refl
insert-under i k n ((j, m) ∷ b) = ground (arith, insert-under i k n b)

sort-under : (i : ℤ) (b : Dict ℤ ℕ) → under i (sort by_index b) ≡ under i b
unfolding under sort
sort-under i [] = refl
sort-under i ((k, n) ∷ b) = ground (arith, insert-under i k n (sort by_index b), sort-under i b)

insert-sum : (k : ℤ) (n : ℕ) (b : Dict ℤ ℕ) → sum (insert by_index (k, n) b) ≡ n + sum b
unfolding Dict.total insert
insert-sum k n [] = refl
insert-sum k n ((j, m) ∷ b) = ground (arith, insert-sum k n b)

sort-sum : (b : Dict ℤ ℕ) → sum (sort by_index b) ≡ sum b
unfolding Dict.total sort
sort-sum [] = refl
sort-sum ((k, n) ∷ b) = omega (arith, insert-sum k n (sort by_index b), sort-sum b)

under_zero : (i : ℤ) (b : Dict ℤ ℕ) → From i b → under i b ≡ 0
unfolding under From
under_zero i [] f = refl
under_zero i ((k, n) ∷ b) f = ground (arith, under_zero i b f.1)

-- What the walk finds, if it finds a bucket.
abbrev Found : ℕ → ℕ → Dict ℤ ℕ → Option ℤ → Type 0
Found rank before b none = before + sum b < rank
Found rank before b (some i) = (rank ≤ before + upto i b) × (before + under i b < rank)

upto_zero : (i k : ℤ) (b : Dict ℤ ℕ) → ltb_ℤ i k ≡ true → From k b → upto i b ≡ 0
unfolding upto From
upto_zero i k [] h f = refl
upto_zero i k ((j, n) ∷ b) h f = ground (arith, upto_zero i k b h f.1)

Found-cons :
    (rank before n : ℕ) (k : ℤ) (b : Dict ℤ ℕ) (o : Option ℤ)
    → From k b
    → before + n < rank
    → Found rank (before + n) b o
    → Found rank before ((k, n) ∷ b) o
unfolding upto under Dict.total
Found-cons rank before n k b none f l h = omega (arith, h)
Found-cons rank before n k b (some i) f l h = ground (arith, upto_zero i k b, h.0, h.1)

find_bucket-Found :
    (rank before : ℕ) (b : Dict ℤ ℕ)
    → before < rank
    → Ascending b
    → Found rank before b (find_bucket rank before b)
unfolding find_bucket Ascending
find_bucket-Found rank before [] l a = unfold Dict.total in omega arith
find_bucket-Found rank before ((k, n) ∷ b) l a = elim (Bool-cases (leb rank (before + n))) [
  | inl reached ↦ rw reached (unfold upto under in ground (arith, under_zero k b a.0))
  | inr short ↦ rw short (
      Found-cons rank before n k b (find_bucket rank (before + n) b) a.0 (ground arith)
        (find_bucket-Found rank (before + n) b (ground arith) a.1))
]

rank_of_bounds :
    (rank total : ℕ) → rank ≤ total → 0 < total → (0 < rank_of rank) × (rank_of rank ≤ total)
rank_of_bounds rank total h p = ground arith

-- The bucket that `quantile` finds, if there is one.
found_bucket : ℕ → DdSketch → Option ℤ
found_bucket rank s = find_bucket rank 0 (sort by_index s.buckets)

quantile-found_bucket :
    (floats : Floats) (n d : ℕ) (s : DdSketch) (i : ℤ)
    → n ≤ d
    → 0 < s.total_count
    → found_bucket (rank_of (floats.ceil_of n d s.total_count)) s ≡ some i
    → quantile floats n d s ≡ some (floats.times s.config.min_value (floats.power s.config i))
unfolding quantile found_bucket
quantile-found_bucket floats n d s i q h e = rw (range, filled, e) refl
  where
    range : ltb d n ≡ false
    range = ground arith

    filled : s.total_count == 0 ≡ false
    filled = ground arith

-- `quantile` finds the bucket that holds the wanted rank: of a sound sketch that is not empty, for
-- q = n / d at most 1, and where ceil(q * total_count), as floats compute it, is at most
-- total_count, it answers min_value * gamma ** i for a bucket i such that the buckets up to i count
-- at least this rank, or 1 if it is 0, and the ones below i count less.
pub quantile_lem :
    (floats : Floats) (n d : ℕ) (s : DdSketch)
    → IsSketch s
    → n ≤ d
    → floats.ceil_of n d s.total_count ≤ s.total_count
    → 0 < s.total_count
    → (i : ℤ) × (quantile floats n d s
        ≡ some (floats.times s.config.min_value (floats.power s.config i)))
      × (rank_of (floats.ceil_of n d s.total_count) ≤ upto i s.buckets)
      × (under i s.buckets < rank_of (floats.ceil_of n d s.total_count))
quantile_lem floats n d s k q c h =
    located (found_bucket rank s) refl (unfold found_bucket in found)
  where
    rank : ℕ
    rank = rank_of (floats.ceil_of n d s.total_count)

    bounds : (0 < rank) × (rank ≤ s.total_count)
    bounds = rank_of_bounds (floats.ceil_of n d s.total_count) s.total_count c h

    found : Found rank 0 (sort by_index s.buckets) (find_bucket rank 0 (sort by_index s.buckets))
    found = find_bucket-Found rank 0 (sort by_index s.buckets) bounds.0 (sort-Ascending s.buckets)

    located :
        (o : Option ℤ)
        → found_bucket rank s ≡ o
        → Found rank 0 (sort by_index s.buckets) o
        → (i : ℤ) × (quantile floats n d s
            ≡ some (floats.times s.config.min_value (floats.power s.config i)))
          × (rank ≤ upto i s.buckets)
          × (under i s.buckets < rank)
    located none e f = absurd (omega (arith, f, bounds.1, sort-sum s.buckets, k.counted))
    located (some i) e f = (
      i,
      quantile-found_bucket floats n d s i q h e,
      omega (arith, f.0, sort-upto i s.buckets),
      omega (arith, f.1, sort-under i s.buckets),
    )
