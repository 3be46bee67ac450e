-- ===== src/Strict/Coordinator/Diagnosis.antt =====
-- strict/coordinator.py: what the skew and the combined status say.
use csdlpt.Prelude.{
  ◌≡◌, ◌≢◌, arith, ◌↔◌, true, List, [], ◌∷◌, ℤ, ◌-ℤ◌, ◌≤ℤ◌, ltb_ℤ, -ℤ_parts, if◌then◌else◌, map,
  elem, int_eq,
}
use csdlpt.Strict.Coordinator.State.{SkewStatus, skew_ok, LagStatus, lag_ok, healthy, warning}
use csdlpt.Strict.Coordinator.Global.{largest, skew, combine}

largest-first : (m : ℤ) (l : List ℤ) → m ≤ℤ largest m l
unfolding largest
largest-first m [] = ground arith
largest-first m (x ∷ l) = ground (arith, largest-first (if ltb_ℤ m x then x else m) l)

largest-bound : (m : ℤ) (l : List ℤ) (x : ℤ) → elem x l ≡ true → x ≤ℤ largest m l
unfolding largest elem
largest-bound m [] x h = ground arith
largest-bound m (y ∷ l) x h = ground (
  arith,
  largest-bound (if ltb_ℤ m y then y else m) l x,
  largest-first (if ltb_ℤ m y then y else m) l,
  int_eq.beq_iff y x,
  int_eq.beq_iff x y,
)

elem-map : (f : ℤ → ℤ) (x : ℤ) (l : List ℤ) → elem x l ≡ true → elem (f x) (map f l) ≡ true
unfolding elem
elem-map f x [] h = h
elem-map f x (y ∷ l) h =
    ground (arith, elem-map f x l, int_eq.beq_iff y x, int_eq.beq_iff (f y) (f x))

skew-first :
    (W x : ℤ) (l : List ℤ) (a : ℤ)
    → elem a (x ∷ l) ≡ true
    → W -ℤ a ≤ℤ largest (W -ℤ x) (map (λ y. W -ℤ y) l)
unfolding elem
skew-first W x l a h = ground (
  arith,
  int_eq.beq_iff x a,
  largest-first (W -ℤ x) (map (λ y. W -ℤ y) l),
  largest-bound (W -ℤ x) (map (λ y. W -ℤ y) l) (W -ℤ a),
  elem-map (λ y. W -ℤ y) a l,
)

max-bound : (x : ℤ) (l : List ℤ) (b : ℤ) → elem b (x ∷ l) ≡ true → b ≤ℤ largest x l
unfolding elem
max-bound x l b h = ground (arith, int_eq.beq_iff x b, largest-first x l, largest-bound x l b)

-- The node skew is at least the distance between any two of the nodes' watermarks.
pub skew-Bounds :
    (x : ℤ) (l : List ℤ) (a b : ℤ)
    → elem a (x ∷ l) ≡ true
    → elem b (x ∷ l) ≡ true
    → b -ℤ a ≤ℤ skew x l
unfolding skew
skew-Bounds x l a b h k = ground (
  arith,
  skew-first (largest x l) x l a h,
  max-bound x l b k,
  -ℤ_parts b a,
  -ℤ_parts (largest x l) a,
)

-- The combined status of a coordinator that has computed its status is "Healthy" exactly when both
-- the skew and the lag are "OK", and it is never "Warning": the last branch is not reached.
pub combine_lem :
    (s : SkewStatus) (l : LagStatus)
    → ((combine s l ≡ healthy) ↔ ((s ≡ skew_ok) × (l ≡ lag_ok))) × (combine s l ≢ warning)
unfolding combine
combine_lem s l = ground arith
