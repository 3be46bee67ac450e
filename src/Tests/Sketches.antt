-- ===== src/Tests/Sketches.antt =====
-- local_ddsketch/sketch.py: tests of sketches whose buckets are hundreds wide.
use csdlpt.Prelude.{
  ℕ, ◌*◌, ◌/◌, ◌≤◌, ◌<◌, ◌≡◌, ◌+◌, ◌-◌, ◌+ℤ◌, refl, arith, some, List, [], ◌∷◌, ℤ, pos, negsuc,
  pos_part, int_eq, length, eqb_ℤ,
}
use csdlpt.Prelude.Dict
use csdlpt.Prelude.Dict.{Dict, IsDict}
use csdlpt.Sketch.Buckets.{
  Floats, Config, DdSketch, is_valid, blank, maybe_collapse, quantile, rank_of,
}
use csdlpt.Sketch.Collapse.{sum, maybe_collapse_lem}
use csdlpt.Sketch.Counts.{IsSketch, init-IsSketch}
use csdlpt.Sketch.Rank.{upto, under, quantile_lem}

abbrev config : Config
config = record { alpha = 10000; max_buckets = 2; min_value = 1; max_value = 1000 }

abbrev bucket_index : Config → ℤ → ℤ
bucket_index c v = pos (pos_part v / 100)

abbrev crowded : Dict ℤ ℕ
crowded = (pos 3, 4) ∷ (pos 1, 2) ∷ (pos 9, 1) ∷ []

crowded-IsDict : IsDict crowded
unfolding Dict.get eqb_ℤ
crowded-IsDict = (refl, (refl, (refl, tt)))

maybe_collapse_lem_example :
    (sum (maybe_collapse 2 crowded) ≡ sum crowded)
    × IsDict (maybe_collapse 2 crowded)
    × (length (maybe_collapse 2 crowded) ≤ 2)
maybe_collapse_lem_example = maybe_collapse_lem 2 crowded crowded-IsDict (omega arith)

init-IsSketch_example : IsSketch (blank config)
unfolding is_valid
init-IsSketch_example = init-IsSketch config refl

abbrev values : List ℤ
values = pos 120 ∷ pos 130 ∷ negsuc 4 ∷ pos 950 ∷ pos 333 ∷ []

abbrev filled : DdSketch
filled = record { config = config; buckets = (pos 3, 4) ∷ (pos 1, 2) ∷ []; total_count = 6 }

filled-IsSketch : IsSketch filled
unfolding Dict.total Dict.get eqb_ℤ
filled-IsSketch = record {
  counted = refl;
  unique = (refl, (refl, tt));
  limited = omega arith;
  enough = omega arith;
}

-- Sums and an exact rank in place of the floats.
abbrev floats : Floats
floats = record {
  power = λ c i. pos (pos_part i * 100);
  times = λ m x. pos m +ℤ x;
  ceil_of = λ n d total. (n * total + d - 1) / d;
}

quantile_lem_example :
    (i : ℤ) × (quantile floats 1 2 filled
      ≡ some (floats.times config.min_value (floats.power config i)))
    × (rank_of 3 ≤ upto i filled.buckets)
    × (under i filled.buckets < rank_of 3)
quantile_lem_example =
    quantile_lem floats 1 2 filled filled-IsSketch (omega arith) (omega arith) (omega arith)
