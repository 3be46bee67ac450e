-- ===== src/Prelude/Dict.antt =====
-- Python's `dict`: an association list in insertion order, at most one entry to a key.
use Prim.Native.Nat.{ℕ, ◌+◌}
use mathlib.Core.Path.{◌≡◌, refl}
use mathlib.Core.Bool.{Bool, true, false}
use mathlib.Core.Option.{Option, none, some}
use mathlib.Core.List.{List, [], ◌∷◌, map}
use native.Mathlib.Omega.{arith}
use csdlpt.Prelude.Tests.{if◌then◌else◌, Bool-cases}
use csdlpt.Prelude.Equal.{Eq, elem}
use csdlpt.Prelude.Lists.{keep}

abbrev pub Dict {ℓ} : Type ℓ → Type ℓ → Type ℓ
Dict K V = List (K × V)

module _ {ℓ} {V : Type ℓ} where
  abbrev pub measure : (V → ℕ) → Option V → ℕ
  measure f none = 0
  measure f (some v) = f v

  abbrev pub is_some : Option V → Bool
  is_some none = false
  is_some (some v) = true

  abbrev pub get_or : Option V → V → V
  get_or none v = v
  get_or (some w) v = w

module _ {ℓ} {K V : Type ℓ} where
  abbrev pub keys : Dict K V → List K
  keys = map (λ p. p.0)

  abbrev pub values : Dict K V → List V
  values = map (λ p. p.1)

  -- The sum of a measure over the values.
  unfoldable pub total : (V → ℕ) → Dict K V → ℕ
  total f [] = 0
  total f ((k, v) ∷ d) = f v + total f d

module _ {ℓ} {K V : Type ℓ} ⦃e : Eq K⦄ where
  unfoldable pub get : Dict K V → K → Option V
  get [] k = none
  get ((j, v) ∷ d) k = if e.beq j k then some v else get d k

  -- `d[k] = v`
  unfoldable pub put : Dict K V → K → V → Dict K V
  put [] k v = (k, v) ∷ []
  put ((j, w) ∷ d) k v = if e.beq j k then (k, v) ∷ d else (j, w) ∷ put d k v

  -- `d.pop(k, None)`
  unfoldable pub remove : Dict K V → K → Dict K V
  remove [] k = []
  remove ((j, v) ∷ d) k = let rest = remove d k in if e.beq j k then rest else (j, v) ∷ rest

  -- `k in d`
  abbrev pub has : Dict K V → K → Bool
  has d k = is_some (get d k)

  -- What a Python dict has by construction: no key twice.
  abbrev pub IsDict : Dict K V → Type ℓ
  IsDict [] = Unit
  IsDict ((k, v) ∷ d) = (get d k ≡ none) × IsDict d

pub beq_refl {ℓ} : {K : Type ℓ} ⦃e : Eq K⦄ (k : K) → e.beq k k ≡ true
beq_refl ⦃e⦄ k = (e.beq_iff k k).1 refl

module _ {ℓ} {K V : Type ℓ} ⦃e : Eq K⦄ where
  pub get-put :
      (d : Dict K V) (k j : K) (v : V) → get (put d k v) j ≡ (if e.beq k j then some v else get d j)
  unfolding get put
  get-put [] k j v = refl
  get-put ((i, w) ∷ d) k j v =
      ground (arith, e.beq_iff i k, e.beq_iff i j, e.beq_iff k j, get-put d k j v)

  pub get-remove :
      (d : Dict K V) (k j : K) → get (remove d k) j ≡ (if e.beq k j then none else get d j)
  unfolding get remove
  get-remove [] k j = ground arith
  get-remove ((i, w) ∷ d) k j =
      ground (arith, e.beq_iff i k, e.beq_iff i j, e.beq_iff k j, get-remove d k j)

  pub get-put_self : (d : Dict K V) (k : K) (v : V) → get (put d k v) k ≡ some v
  get-put_self d k v = rw (get-put d k k v, beq_refl k)

  pub put-IsDict : (d : Dict K V) (k : K) (v : V) → IsDict d → IsDict (put d k v)
  unfolding get put
  put-IsDict [] k v h = (refl, tt)
  put-IsDict ((i, w) ∷ d) k v h =
      ground (arith, e.beq_iff i k, e.beq_iff k i, get-put d k i v, put-IsDict d k v)

  pub remove-IsDict : (d : Dict K V) (k : K) → IsDict d → IsDict (remove d k)
  unfolding get remove
  remove-IsDict [] k h = tt
  remove-IsDict ((i, w) ∷ d) k h =
      ground (arith, e.beq_iff i k, e.beq_iff k i, get-remove d k i, remove-IsDict d k)

  -- Removing an absent key changes nothing.
  pub remove_absent : (d : Dict K V) (k : K) → get d k ≡ none → remove d k ≡ d
  unfolding get remove
  remove_absent [] k h = refl
  remove_absent ((i, w) ∷ d) k h = ground (arith, remove_absent d k)

  pub total-put :
      (f : V → ℕ) (d : Dict K V) (k : K) (v : V)
      → total f (put d k v) + measure f (get d k) ≡ total f d + f v
  unfolding get put total
  total-put f [] k v = omega arith
  total-put f ((i, w) ∷ d) k v = ground (arith, total-put f d k v)

  pub total-remove :
      (f : V → ℕ) (d : Dict K V) (k : K)
      → IsDict d
      → total f (remove d k) + measure f (get d k) ≡ total f d
  unfolding get remove total
  total-remove f [] k h = omega arith
  total-remove f ((i, w) ∷ d) k h =
      ground (arith, e.beq_iff i k, remove_absent d k, total-remove f d k)

  -- The keys of the entries that pass a test.
  pub elem-keys :
      (q : K × V → Bool) (d : Dict K V) (k : K)
      → IsDict d
      → elem k (keys (keep q d)) ≡ elim (get d k) [ none ↦ false | some v ↦ q (k, v) ]
  unfolding get keep elem
  elem-keys q [] k h = refl
  elem-keys q ((i, w) ∷ d) k h =
      ground (arith, e.beq_iff i k, Bool-cases (q (i, w)), elem-keys q d k)
