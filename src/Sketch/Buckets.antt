-- ===== src/Sketch/Buckets.antt =====
-- local_ddsketch/sketch.py: `DDSketch`. A float is an integer number of millionths. The floating point
-- operations, among them the map from a value to its bucket by `math.log`, are arguments.
use csdlpt.Prelude.{
  ℕ, zero, suc, ◌+◌, Bool, ◌&&◌, Option, none, some, List, [], ◌∷◌, ℤ, pos, ltb_ℤ, int_eq, ltb, leb,
  ◌==◌, if◌then◌else◌, length,
}
use csdlpt.Prelude.Dict
use csdlpt.Prelude.Dict.{Dict}
use csdlpt.Prelude.Sort.{sort}

pub record Config : Type 0 where
  pub alpha : ℕ
  pub max_buckets : ℕ
  pub min_value : ℕ
  pub max_value : ℕ

pub record DdSketch : Type 0 where
  pub config : Config
  pub buckets : Dict ℤ ℕ
  pub total_count : ℕ

-- The tests of `__init__`; a ValueError is `none`.
unfoldable pub is_valid : Config → Bool
is_valid c =
    ltb 0 c.alpha
    && ltb c.alpha 1000000
    && leb 2 c.max_buckets
    && ltb 0 c.min_value
    && ltb c.min_value c.max_value

abbrev pub blank : Config → DdSketch
blank c = record { config = c; buckets = []; total_count = 0 }

unfoldable pub init : Config → Option DdSketch
unfolding is_valid
init c = if is_valid c then some (blank c) else none

-- `buckets[idx] = buckets.get(idx, 0) + n`
abbrev pub put_more : Dict ℤ ℕ → ℤ → ℕ → Dict ℤ ℕ
put_more b idx n = Dict.put b idx (Dict.get_or (Dict.get b idx) 0 + n)

-- One round of the loop, on the sorted indices; with fewer than two of them it breaks.
unfoldable pub collapse_lowest : List ℤ → Dict ℤ ℕ → Dict ℤ ℕ
collapse_lowest [] b = b
collapse_lowest (lo ∷ []) b = b
collapse_lowest (lo ∷ hi ∷ l) b = Dict.remove (put_more b hi (Dict.get_or (Dict.get b lo) 0)) lo

unfoldable pub collapse : ℕ → ℕ → Dict ℤ ℕ → Dict ℤ ℕ
unfolding collapse_lowest
collapse zero max_buckets b = b
collapse (suc fuel) max_buckets b =
    let rest = collapse fuel max_buckets (collapse_lowest (sort (λ i. i) (Dict.keys b)) b) in
    if ltb max_buckets (length b) then rest else b

-- `_maybe_collapse`: each round takes a bucket away, so there are no more rounds than buckets.
unfoldable pub maybe_collapse : ℕ → Dict ℤ ℕ → Dict ℤ ℕ
unfolding collapse
maybe_collapse max_buckets b = collapse (length b) max_buckets b

-- `max(self.min_value, min(self.max_value, value))`
unfoldable pub capped : Config → ℤ → ℤ
capped c value =
    let below = if ltb_ℤ value (pos c.max_value) then value else pos c.max_value in
    if ltb_ℤ (pos c.min_value) below then below else pos c.min_value

module _ (bucket_index : Config → ℤ → ℤ) where
  unfoldable pub add : ℤ → DdSketch → DdSketch
  unfolding maybe_collapse capped
  add value s = if ltb_ℤ value (pos 0) then s else record s {
    buckets =
        maybe_collapse s.config.max_buckets
          (put_more s.buckets (bucket_index s.config (capped s.config value)) 1);
    total_count = s.total_count + 1;
  }

  unfoldable pub add_many : List ℤ → DdSketch → DdSketch
  unfolding add
  add_many [] s = s
  add_many (v ∷ l) s = add_many l (add v s)

-- The loop over the other sketch's buckets.
unfoldable pub add_buckets : Dict ℤ ℕ → Dict ℤ ℕ → Dict ℤ ℕ
add_buckets [] b = b
add_buckets ((idx, cnt) ∷ l) b = add_buckets l (put_more b idx cnt)

-- `_validate_merge_compatible`
unfoldable pub compatible : Config → Config → Bool
compatible a b =
    a.alpha == b.alpha
    && a.max_buckets == b.max_buckets
    && a.min_value == b.min_value
    && a.max_value == b.max_value

unfoldable pub merge_into : DdSketch → DdSketch → Option DdSketch
unfolding compatible add_buckets maybe_collapse
merge_into other s =
    if compatible s.config other.config
    then some (record s {
      total_count = s.total_count + other.total_count;
      buckets = maybe_collapse s.config.max_buckets (add_buckets other.buckets s.buckets);
    })
    else none

-- `merge`, into a new sketch of the same configuration
unfoldable pub merge : DdSketch → DdSketch → Option DdSketch
unfolding compatible add_buckets maybe_collapse
merge other s =
    if compatible s.config other.config
    then some (record {
      config = s.config;
      total_count = s.total_count + other.total_count;
      buckets =
          maybe_collapse s.config.max_buckets
            (add_buckets other.buckets (add_buckets s.buckets []));
    })
    else none

-- The walk over the buckets in the order of their indices.
unfoldable pub find_bucket : ℕ → ℕ → Dict ℤ ℕ → Option ℤ
find_bucket rank cumulative [] = none
find_bucket rank cumulative ((idx, cnt) ∷ l) =
    let rest = find_bucket rank (cumulative + cnt) l in
    if leb rank (cumulative + cnt) then some idx else rest

unfoldable pub largest_index : ℤ → Dict ℤ ℕ → ℤ
largest_index m [] = m
largest_index m ((idx, cnt) ∷ l) = largest_index (if ltb_ℤ m idx then idx else m) l

-- The fallback, `max(self._buckets)`; 0 stands for the ValueError of no bucket at all.
unfoldable pub last_index : Dict ℤ ℕ → ℤ
unfolding largest_index
last_index [] = pos 0
last_index ((idx, cnt) ∷ l) = largest_index idx l

-- What the code computes in floats with operations of Python: `gamma ** i`, the product with `min_value`,
-- and `int(math.ceil(q * total))` for q = n / d.
pub record Floats : Type 0 where
  pub power : Config → ℤ → ℤ
  pub times : ℕ → ℤ → ℤ
  pub ceil_of : ℕ → ℕ → ℕ → ℕ

-- `_value_lower_bound`
abbrev pub value_lower_bound : Floats → Config → ℤ → ℤ
value_lower_bound f c idx = f.times c.min_value (f.power c idx)

-- A rank is at least 1.
abbrev pub rank_of : ℕ → ℕ
rank_of rank = if rank == 0 then 1 else rank

abbrev pub by_index : ℤ × ℕ → ℤ
by_index p = p.0

-- `quantile` for q = n / d; a q above 1 is the ValueError.
unfoldable pub quantile : Floats → ℕ → ℕ → DdSketch → Option ℤ
unfolding find_bucket last_index
quantile floats n d s =
    if ltb d n
    then none
    else if s.total_count == 0
    then some (pos 0)
    else some (
        value_lower_bound floats s.config (
          Dict.get_or
            (find_bucket (rank_of (floats.ceil_of n d s.total_count)) 0 (sort by_index s.buckets))
            (last_index s.buckets)))
