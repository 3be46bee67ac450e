-- ===== src/Sketch/Counts.antt =====
-- local_ddsketch/sketch.py: the buckets of a sketch hold what was added, also after a merge.
use csdlpt.Prelude.{
  ℕ, ◌+◌, ◌≤◌, ◌≡◌, refl, ◌∙◌, arith, inl, inr, true, Option, none, some, List, [], ◌∷◌, ℤ, pos,
  int_eq, ltb_ℤ, if◌then◌else◌, length, keep, not, Bool-cases,
}
use csdlpt.Prelude.Dict
use csdlpt.Prelude.Dict.{Dict, IsDict, put-IsDict}
use csdlpt.Sketch.Buckets.{
  Config, DdSketch, is_valid, blank, put_more, maybe_collapse, capped, add, add_many, add_buckets,
  compatible, merge_into, merge,
}
use csdlpt.Sketch.Collapse.{sum, put_more-sum, maybe_collapse_lem}

-- The counts add up to the total, no bucket is listed twice, and the limit holds.
pub record IsSketch (s : DdSketch) : Type 0 where
  pub counted : sum s.buckets ≡ s.total_count
  pub unique : IsDict s.buckets
  pub limited : length s.buckets ≤ s.config.max_buckets
  pub enough : 2 ≤ s.config.max_buckets

-- Any buckets, collapsed into a sketch.
collapsed-IsSketch :
    (c : Config) (b : Dict ℤ ℕ) (n : ℕ)
    → IsDict b
    → 2 ≤ c.max_buckets
    → sum b ≡ n
    → IsSketch (record { config = c; buckets = maybe_collapse c.max_buckets b; total_count = n })
collapsed-IsSketch c b n u m h =
    let k = maybe_collapse_lem c.max_buckets b u m in
    record { counted = k.0 ∙ h; unique = k.1; limited = k.2; enough = m }

module _ (bucket_index : Config → ℤ → ℤ) where
  add-IsSketch : (value : ℤ) (s : DdSketch) → IsSketch s → IsSketch (add bucket_index value s)
  unfolding add
  add-IsSketch value s k = elim (Bool-cases (ltb_ℤ value (pos 0))) [
    | inl negative ↦ rw negative k
    | inr counts ↦ rw counts (
        collapsed-IsSketch s.config _ (s.total_count + 1)
          (put-IsDict s.buckets (bucket_index s.config (capped s.config value)) _ k.unique) k.enough
          (omega (
            arith,
            put_more-sum s.buckets (bucket_index s.config (capped s.config value)) 1,
            k.counted,
          )))
  ]

  add-total :
      (value : ℤ) (s : DdSketch)
      → (add bucket_index value s).total_count
        ≡ (if ltb_ℤ value (pos 0) then s.total_count else s.total_count + 1)
  unfolding add
  add-total value s = ground arith

  add_many-total :
      (l : List ℤ) (s : DdSketch)
      → (add_many bucket_index l s).total_count
        ≡ s.total_count + length (keep (λ v. not (ltb_ℤ v (pos 0))) l)
  unfolding add_many keep
  add_many-total [] s = omega arith
  add_many-total (v ∷ l) s = ground (arith, add_many-total l (add bucket_index v s), add-total v s)

  add_many-IsSketch :
      (l : List ℤ) (s : DdSketch) → IsSketch s → IsSketch (add_many bucket_index l s)
  unfolding add_many
  add_many-IsSketch [] s k = k
  add_many-IsSketch (v ∷ l) s k = add_many-IsSketch l (add bucket_index v s) (add-IsSketch v s k)

  -- Whatever map gives the bucket of a value: after any values were added to a sketch that is sound,
  -- it is sound, and its buckets together hold the earlier count and one for each value that is not
  -- negative.
  pub add_many_lem :
      (l : List ℤ) (s : DdSketch)
      → IsSketch s
      → IsSketch (add_many bucket_index l s)
        × (sum (add_many bucket_index l s).buckets
            ≡ sum s.buckets + length (keep (λ v. not (ltb_ℤ v (pos 0))) l))
  add_many_lem l s k =
      let after = add_many-IsSketch l s k in
      (after, omega (arith, after.counted, k.counted, add_many-total l s))

-- `__init__` makes a sound sketch, or raises.
pub init-IsSketch : (c : Config) → is_valid c ≡ true → IsSketch (blank c)
unfolding is_valid Dict.total
init-IsSketch c h = record {
  counted = refl;
  unique = tt;
  limited = omega arith;
  enough = ground arith;
}

add_buckets-sum : (l b : Dict ℤ ℕ) → sum (add_buckets l b) ≡ sum b + sum l
unfolding add_buckets Dict.total
add_buckets-sum [] b = omega arith
add_buckets-sum ((k, n) ∷ l) b =
    omega (arith, add_buckets-sum l (put_more b k n), put_more-sum b k n)

add_buckets-IsDict : (l b : Dict ℤ ℕ) → IsDict b → IsDict (add_buckets l b)
unfolding add_buckets
add_buckets-IsDict [] b u = u
add_buckets-IsDict ((k, n) ∷ l) b u = add_buckets-IsDict l (put_more b k n) (put-IsDict b k _ u)

-- What a merge must be: sound, with the counts of both.
abbrev pub Merged : DdSketch → DdSketch → Option DdSketch → Type 0
Merged s t none = ⊥
Merged s t (some m) =
    IsSketch m × (m.total_count ≡ s.total_count + t.total_count) × (m.config ≡ s.config)

-- Two sound sketches of one configuration merge, in place or into a new sketch, and the merged sketch
-- is sound and holds the counts of both.
pub merge_lem :
    (s t : DdSketch)
    → IsSketch s
    → IsSketch t
    → compatible s.config t.config ≡ true
    → Merged s t (merge_into t s) × Merged s t (merge t s)
unfolding merge_into merge
merge_lem s t k j same = rw (same) (
  (
    collapsed-IsSketch s.config (add_buckets t.buckets s.buckets) (s.total_count + t.total_count)
        (add_buckets-IsDict t.buckets s.buckets k.unique) k.enough
        (omega (arith, add_buckets-sum t.buckets s.buckets, k.counted, j.counted)),
    refl,
    refl,
  ),
  (
    collapsed-IsSketch s.config (add_buckets t.buckets (add_buckets s.buckets []))
        (s.total_count + t.total_count)
        (add_buckets-IsDict t.buckets _ (add_buckets-IsDict s.buckets [] tt)) k.enough
        (unfold Dict.total in
          omega (
            arith,
            add_buckets-sum t.buckets (add_buckets s.buckets []),
            add_buckets-sum s.buckets [],
            k.counted,
            j.counted,
          )),
    refl,
    refl,
  ),
)
