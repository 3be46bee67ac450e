-- ===== src/Sketch/Cache.antt =====
-- local_ddsketch/compat.py: what the cache of `SlidingWindowDDSketch.quantile` answers.
use csdlpt.Prelude.{
  ℕ, ◌≡◌, inl, inr, refl, ◌∙◌, sym, ◌≤◌, ◌<◌, true, false, Option, none, some, List, [], ◌∷◌, ℤ,
  pos, int_eq, nat_eq, if◌then◌else◌, arith, keep, length, ltb, ltb→lt, ◌+◌, ltb_ℤ, ◌==◌,
  Bool-cases,
}
use csdlpt.Prelude.Dict
use csdlpt.Prelude.Dict.{Dict}
use csdlpt.Sketch.Buckets
use csdlpt.Sketch.Buckets.{Config, Floats, DdSketch}
use csdlpt.Sketch.Sliding.{
  SlidingWindow, drop_expired, prune, extend, advance, is_before, is_too_old, add_at, add,
  sub_sketch_start, merged, of_merged, common_quantiles, refill, refill_with, from_cache, quantile,
}

module _ (floats : Floats) where
  unfoldable pub of_merge : Option DdSketch → ℕ → Option ℤ
  of_merge o q = elim o [ none ↦ none | some m ↦ of_merged floats m q ]

  -- The quantile with no cache: 0 with no sketch, else that of all the sketches merged.
  unfoldable pub exact : ℕ → Dict ℤ DdSketch → Option ℤ
  unfolding of_merge
  exact q d = if length d == 0 then some (pos 0) else of_merge (merged (Dict.values d)) q

  -- A cache with a time holds exact quantiles.
  unfoldable pub IsFresh : SlidingWindow → Type 0
  IsFresh s =
      (q : ℕ) (v : ℤ)
      → 0 < s.cache_ts
      → Dict.get s.cached_quantiles q ≡ some v
      → exact q s.sketches ≡ some v

  stale-IsFresh : (s : SlidingWindow) → s.cache_ts ≡ 0 → IsFresh s
  unfolding IsFresh
  stale-IsFresh s e q v p h = absurd (omega arith)

  drop-IsFresh : (l : List ℤ) (s : SlidingWindow) → IsFresh s → IsFresh (drop_expired l s)
  unfolding drop_expired IsFresh
  drop-IsFresh [] s h = h
  drop-IsFresh (t ∷ l) s h = λ q v p e. absurd (omega arith)

  -- A move of the latest time.
  moved-IsFresh :
      (t : Option ℤ) (s : SlidingWindow) → IsFresh s → IsFresh (record s { latest_time = t })
  unfolding IsFresh
  moved-IsFresh t s h = h

  prune-IsFresh : (t : ℤ) (s : SlidingWindow) → IsFresh s → IsFresh (prune t s)
  unfolding prune
  prune-IsFresh t s h =
      drop-IsFresh (keep (is_before t s.window_seconds) (Dict.keys s.sketches)) s h

  extend-IsFresh : (t : ℤ) (s : SlidingWindow) → IsFresh s → IsFresh (extend t s)
  unfolding extend
  extend-IsFresh t s h =
      elim s.latest_time
        as (λ o. IsFresh (elim o [
          | none ↦ record s { latest_time = some t }
          | some latest ↦ if ltb_ℤ latest t then prune t (record s { latest_time = some t }) else s
        ])) [
          | none ↦ moved-IsFresh (some t) s h
          | some latest ↦
              elim (ltb_ℤ latest t)
                as (λ b. IsFresh (if b then prune t (record s { latest_time = some t }) else s)) [
                  | true ↦
                      prune-IsFresh t (record s { latest_time = some t })
                        (moved-IsFresh (some t) s h)
                  | false ↦ h
                ]
        ]

  -- `advance` keeps the cache fresh.
  pub advance-IsFresh : (t : ℤ) (s : SlidingWindow) → IsFresh s → IsFresh (advance t s)
  unfolding advance
  advance-IsFresh t s h =
      elim s.latest_time
        as (λ o. IsFresh (elim o [
          | none ↦ prune t (record s { latest_time = some t })
          | some latest ↦
              if ltb_ℤ latest t then prune t (record s { latest_time = some t }) else prune latest s
        ])) [
          | none ↦ prune-IsFresh t (record s { latest_time = some t }) (moved-IsFresh (some t) s h)
          | some latest ↦
              elim (ltb_ℤ latest t)
                as (λ b.
                  IsFresh
                    (if b then prune t (record s { latest_time = some t }) else prune latest s)) [
                      | true ↦
                          prune-IsFresh t (record s { latest_time = some t })
                            (moved-IsFresh (some t) s h)
                      | false ↦ prune-IsFresh latest s h
                    ]
        ]

  -- `add` keeps it too.
  pub add-IsFresh :
      (bucket_index : Config → ℤ → ℤ) (value t : ℤ) (s : SlidingWindow)
      → IsFresh s
      → IsFresh (add bucket_index value t s)
  unfolding add add_at
  add-IsFresh bucket_index value t s₀ h =
      let s = extend t s₀ in
      elim (is_too_old t s)
        as (λ b. IsFresh (if b then s else add_at bucket_index value (sub_sketch_start t s) s)) [
          | true ↦ extend-IsFresh t s₀ h
          | false ↦ stale-IsFresh (add_at bucket_index value (sub_sketch_start t s) s) refl
        ]

  -- A q of at most 1 is no ValueError.
  of_merged-some :
      (m : DdSketch) (q : ℕ)
      → q ≤ 1000000
      → of_merged floats m q ≡ some (Dict.get_or (of_merged floats m q) (pos 0))
  unfolding Buckets.quantile
  of_merged-some m q h = ground arith

  common_exact :
      (m : DdSketch) (q : ℕ) (v : ℤ)
      → Dict.get (common_quantiles floats m) q ≡ some v
      → of_merged floats m q ≡ some v
  unfolding common_quantiles Dict.get
  common_exact m q v h = ground (
    arith,
    nat_eq.beq_iff 500000 q,
    nat_eq.beq_iff 950000 q,
    nat_eq.beq_iff 990000 q,
    nat_eq.beq_iff 999000 q,
    of_merged-some m 500000,
    of_merged-some m 950000,
    of_merged-some m 990000,
    of_merged-some m 999000,
  )

  of_merge_lem :
      (d : Dict ℤ DdSketch) (m : DdSketch) (q : ℕ)
      → length d == 0 ≡ false
      → merged (Dict.values d) ≡ some m
      → exact q d ≡ of_merged floats m q
  unfolding exact
  of_merge_lem d m q e k = rw (e, k)

  filled-IsFresh :
      (m : DdSketch) (s : SlidingWindow)
      → length s.sketches == 0 ≡ false
      → merged (Dict.values s.sketches) ≡ some m
      → IsFresh (record s { cached_quantiles = common_quantiles floats m })
  unfolding IsFresh
  filled-IsFresh m s e k j w p g = of_merge_lem s.sketches m j e k ∙ common_exact m j w g

  renewed-IsFresh :
      (now q : ℕ) (v : ℤ) (m : DdSketch) (s : SlidingWindow)
      → length s.sketches == 0 ≡ false
      → merged (Dict.values s.sketches) ≡ some m
      → of_merged floats m q ≡ some v
      → IsFresh
          (record s { cached_quantiles = Dict.put (common_quantiles floats m) q v; cache_ts = now })
  unfolding IsFresh
  renewed-IsFresh now q v m s e k a j w p g =
      of_merge_lem s.sketches m j e k
      ∙ ground (
        arith,
        nat_eq.beq_iff q j,
        Dict.get-put (common_quantiles floats m) q j v,
        common_exact m j w,
      )

  refill_with-exact :
      (now q : ℕ) (m : DdSketch) (o : Option ℤ) (s : SlidingWindow)
      → length s.sketches == 0 ≡ false
      → merged (Dict.values s.sketches) ≡ some m
      → of_merged floats m q ≡ o
      → ((refill_with floats now q m o s).0 ≡ exact q s.sketches)
        × IsFresh (refill_with floats now q m o s).1
  unfolding refill_with
  refill_with-exact now q m none s e k a =
      (sym (of_merge_lem s.sketches m q e k ∙ a), filled-IsFresh m s e k)
  refill_with-exact now q m (some v) s e k a =
      (sym (of_merge_lem s.sketches m q e k ∙ a), renewed-IsFresh now q v m s e k a)

  refill-exact :
      (now q : ℕ) (o : Option DdSketch) (s : SlidingWindow)
      → length s.sketches == 0 ≡ false
      → merged (Dict.values s.sketches) ≡ o
      → IsFresh s
      → ((refill floats now q o s).0 ≡ exact q s.sketches) × IsFresh (refill floats now q o s).1
  unfolding refill exact
  refill-exact now q none s e k h = (rw (e, k), h)
  refill-exact now q (some m) s e k h = refill_with-exact now q m (of_merged floats m q) s e k refl

  young :
      (q : ℕ) (v : ℤ) (s : SlidingWindow) (now : ℕ)
      → IsFresh s
      → now < s.cache_ts + 200
      → 200 ≤ now
      → Dict.get s.cached_quantiles q ≡ some v
      → exact q s.sketches ≡ some v
  unfolding IsFresh
  young q v s now h b p k = h q v (omega arith) k

  -- A cache hit is younger than 0.2 seconds, so its time is not 0.
  hit_exact :
      (now q : ℕ) (o : Option ℤ) (s : SlidingWindow)
      → length s.sketches == 0 ≡ false
      → Dict.get s.cached_quantiles q ≡ o
      → 200 ≤ now
      → IsFresh s
      → ((from_cache floats now q o s).0 ≡ exact q s.sketches)
        × IsFresh (from_cache floats now q o s).1
  unfolding from_cache
  hit_exact now q none s e k p h = refill-exact now q (merged (Dict.values s.sketches)) s e refl h
  hit_exact now q (some v) s e k p h = elim (Bool-cases (ltb now (s.cache_ts + 200))) [
    | inl b ↦ rw (b) (sym (young q v s now h (ltb→lt now (s.cache_ts + 200) b) p k), h)
    | inr b ↦ rw (b) (refill-exact now q (merged (Dict.values s.sketches)) s e refl h)
  ]

  exact_empty : (q : ℕ) (d : Dict ℤ DdSketch) → length d == 0 ≡ true → exact q d ≡ some (pos 0)
  unfolding exact
  exact_empty q d e = rw (e)

  -- With a fresh cache, and a clock that is past the first 0.2 seconds, `quantile` answers what it does
  -- with no cache: 0 with no sketch, else the quantile of all the sketches merged, its errors included;
  -- and the cache is fresh afterwards, as it is after `add` and `advance`.
  pub quantile-exact :
      (now q : ℕ) (s : SlidingWindow)
      → 200 ≤ now
      → IsFresh s
      → ((quantile floats now q s).0 ≡ exact q s.sketches) × IsFresh (quantile floats now q s).1
  unfolding quantile
  quantile-exact now q s p h = elim (Bool-cases (length s.sketches == 0)) [
    | inl e ↦ rw (e) (sym (exact_empty q s.sketches e), h)
    | inr e ↦ rw (e) (hit_exact now q (Dict.get s.cached_quantiles q) s e refl p h)
  ]
