-- ===== src/Sketch/Sliding.antt =====
-- local_ddsketch/compat.py: `SlidingWindowDDSketch`, sketches of a granule of time each, and the cache
-- of the quantiles. Times are milliseconds, a q is an integer number of millionths.
use csdlpt.Prelude.{
  ℕ, ◌+◌, Bool, false, ◌&&◌, Option, none, some, List, [], ◌∷◌, ℤ, pos, ◌-ℤ◌, ltb_ℤ, floor_to,
  int_eq, nat_eq, ltb, leb, ◌==◌, if◌then◌else◌, keep, length,
}
use csdlpt.Prelude.Dict
use csdlpt.Prelude.Dict.{Dict}
use csdlpt.Prelude.Sort.{sort}
use csdlpt.Sketch.Buckets
use csdlpt.Sketch.Buckets.{Config, Floats, DdSketch, blank, merge_into}

pub record SlidingWindow : Type 0 where
  pub window_seconds : ℕ
  pub sub_sketch_granularity : ℕ
  pub config : Config
  pub sketches : Dict ℤ DdSketch
  pub latest_time : Option ℤ
  pub cached_quantiles : Dict ℕ ℤ
  pub cache_ts : ℕ

-- The tests of `__init__`; a ValueError is `none`.
unfoldable pub init : ℕ → ℕ → Config → Option SlidingWindow
init window granularity config =
    if ltb 0 window && ltb 0 granularity && leb granularity window
    then some (record {
      window_seconds = window;
      sub_sketch_granularity = granularity;
      config = config;
      sketches = [];
      latest_time = none;
      cached_quantiles = [];
      cache_ts = 0;
    })
    else none

unfoldable pub sub_sketch_start : ℤ → SlidingWindow → ℤ
sub_sketch_start t s = floor_to s.sub_sketch_granularity t

-- `ts < latest - window`
abbrev pub is_before : ℤ → ℕ → ℤ → Bool
is_before latest window t = ltb_ℤ t (latest -ℤ pos window)

unfoldable pub remove_all : List ℤ → Dict ℤ DdSketch → Dict ℤ DdSketch
remove_all [] d = d
remove_all (t ∷ l) d = remove_all l (Dict.remove d t)

-- `_prune`, at the latest time.
unfoldable pub drop_expired : List ℤ → SlidingWindow → SlidingWindow
unfolding remove_all
drop_expired [] s = s
drop_expired (t ∷ l) s = record s { sketches = remove_all (t ∷ l) s.sketches; cache_ts = 0 }

unfoldable pub prune : ℤ → SlidingWindow → SlidingWindow
unfolding drop_expired
prune latest s = drop_expired (keep (is_before latest s.window_seconds) (Dict.keys s.sketches)) s

-- The window moves on to a time that is ahead.
unfoldable pub extend : ℤ → SlidingWindow → SlidingWindow
unfolding prune
extend t s = elim s.latest_time [
  | none ↦ record s { latest_time = some t }
  | some latest ↦ if ltb_ℤ latest t then prune t (record s { latest_time = some t }) else s
]

unfoldable pub advance : ℤ → SlidingWindow → SlidingWindow
unfolding prune
advance t s = elim s.latest_time [
  | none ↦ prune t (record s { latest_time = some t })
  | some latest ↦
      if ltb_ℤ latest t then prune t (record s { latest_time = some t }) else prune latest s
]

unfoldable pub is_too_old : ℤ → SlidingWindow → Bool
is_too_old t s = elim s.latest_time [
  | none ↦ false
  | some latest ↦ is_before latest s.window_seconds t
]

module _ (bucket_index : Config → ℤ → ℤ) where
  -- The sketch of a start, made if it is missing, gets the value.
  unfoldable pub add_at : ℤ → ℤ → SlidingWindow → SlidingWindow
  add_at value start s = record s {
    sketches =
        Dict.put s.sketches start (
          Buckets.add bucket_index value
            (Dict.get_or (Dict.get s.sketches start) (blank s.config)));
    cache_ts = 0;
  }

  unfoldable pub add : ℤ → ℤ → SlidingWindow → SlidingWindow
  unfolding add_at extend is_too_old sub_sketch_start
  add value t s₀ =
      let s = extend t s₀ in if is_too_old t s then s else add_at value (sub_sketch_start t s) s

  unfoldable pub add_many : List (ℤ × ℤ) → SlidingWindow → SlidingWindow
  unfolding add
  add_many [] s = s
  add_many ((value, t) ∷ l) s = add_many l (add value t s)

unfoldable pub merge_all : List DdSketch → DdSketch → Option DdSketch
merge_all [] s = some s
merge_all (x ∷ l) s = elim (merge_into x s) [ none ↦ none | some m ↦ merge_all l m ]

-- `sketches[0].copy()`, then the others into it.
unfoldable pub merged : List DdSketch → Option DdSketch
unfolding merge_all
merged [] = none
merged (x ∷ l) = merge_all (x ∷ l) (blank x.config)

unfoldable pub total_count : SlidingWindow → ℕ
total_count s = Dict.total (λ x. x.total_count) s.sketches

module _ (floats : Floats) where
  -- A quantile of the merged sketches, without the cache.
  abbrev pub of_merged : DdSketch → ℕ → Option ℤ
  of_merged m q = Buckets.quantile floats q 1000000 m

  -- The four that are always cached.
  unfoldable pub common_quantiles : DdSketch → Dict ℕ ℤ
  common_quantiles m =
      (500000, Dict.get_or (of_merged m 500000) (pos 0))
      ∷ (950000, Dict.get_or (of_merged m 950000) (pos 0))
      ∷ (990000, Dict.get_or (of_merged m 990000) (pos 0))
      ∷ (999000, Dict.get_or (of_merged m 999000) (pos 0))
      ∷ []

  -- The cache is filled, then q is added; a q above 1 is the ValueError.
  unfoldable pub refill_with :
      ℕ → ℕ → DdSketch → Option ℤ → SlidingWindow → Option ℤ × SlidingWindow
  unfolding common_quantiles
  refill_with now q m none s = (none, record s { cached_quantiles = common_quantiles m })
  refill_with now q m (some v) s =
      (some v, record s { cached_quantiles = Dict.put (common_quantiles m) q v; cache_ts = now })

  -- With the merged sketch, or the ValueError of sketches that do not fit.
  unfoldable pub refill : ℕ → ℕ → Option DdSketch → SlidingWindow → Option ℤ × SlidingWindow
  unfolding refill_with
  refill now q none s = (none, s)
  refill now q (some m) s = refill_with now q m (of_merged m q) s

  -- The hit of a young cache, or a new one.
  unfoldable pub from_cache : ℕ → ℕ → Option ℤ → SlidingWindow → Option ℤ × SlidingWindow
  unfolding refill merged
  from_cache now q none s = refill now q (merged (Dict.values s.sketches)) s
  from_cache now q (some v) s =
      if ltb now (s.cache_ts + 200)
      then (some v, s)
      else refill now q (merged (Dict.values s.sketches)) s

  unfoldable pub quantile : ℕ → ℕ → SlidingWindow → Option ℤ × SlidingWindow
  unfolding from_cache
  quantile now q s =
      if length s.sketches == 0
      then (some (pos 0), s)
      else from_cache now q (Dict.get s.cached_quantiles q) s

-- What `to_dict` writes and `from_dict` reads.
pub record SketchDict : Type 0 where
  pub window_seconds : ℕ
  pub sub_sketch_granularity : ℕ
  pub config : Config
  pub latest_time : Option ℤ
  pub sub_sketches : List (ℤ × DdSketch)

unfoldable pub to_dict : SlidingWindow → SketchDict
to_dict s = record {
  window_seconds = s.window_seconds;
  sub_sketch_granularity = s.sub_sketch_granularity;
  config = s.config;
  latest_time = s.latest_time;
  sub_sketches = sort (λ p. p.0) s.sketches;
}

unfoldable pub put_all : List (ℤ × DdSketch) → Dict ℤ DdSketch → Dict ℤ DdSketch
put_all [] d = d
put_all ((t, s) ∷ l) d = put_all l (Dict.put d t s)

unfoldable pub from_dict : SketchDict → SlidingWindow
unfolding put_all
from_dict d = record {
  window_seconds = d.window_seconds;
  sub_sketch_granularity = d.sub_sketch_granularity;
  config = d.config;
  sketches = put_all d.sub_sketches [];
  latest_time = d.latest_time;
  cached_quantiles = [];
  cache_ts = 0;
}
