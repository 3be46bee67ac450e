-- ===== src/Common/Window/Floor.antt =====
-- common/window.py: where `window_start` puts an event.
use native.Mathlib.Nat.{div-eq_of_lt-le}
use csdlpt.Prelude.{
  sub_ℕ, ap, ℕ, suc, ◌+◌, ◌-◌, ◌*◌, ◌/◌, ◌≤◌, ◌<◌, ◌≡◌, arith, ℤ, pos, negsuc, ◌+ℤ◌, ◌≤ℤ◌, ◌<ℤ◌,
  floor_to, ◌∙◌, subst, +ℤ_parts,
}
use csdlpt.Common.Window.{window_start}

floor_bounds : (n a : ℕ) → 0 < n → (a / n * n ≤ a) × (a < a / n * n + n)
floor_bounds n a h = grind arith

-- An event lies in the window that starts at its `window_start`.
pub window_start_bounds :
    (size : ℕ) (t : ℤ)
    → 0 < size
    → (window_start size t ≤ℤ t) × (t <ℤ window_start size t +ℤ pos size)
unfolding window_start floor_to ◌+ℤ◌
window_start_bounds size (pos a) h = ground (arith, floor_bounds size a h)
window_start_bounds size (negsuc a) h = ground (arith, floor_bounds size (a + size) h)

-- The quotient is the number of whole windows below.
quotient_unique : (n k a : ℕ) → k * n ≤ a → a < suc k * n → a / n ≡ k
quotient_unique n k a h l = div-eq_of_lt-le n h (omega arith)

multiple_below : (n k : ℕ) → 0 < n → 0 < k * n → (k * n - 1 + n) / n * n ≡ k * n
multiple_below n k h p =
    ap (λ (q : ℕ). q * n) (quotient_unique n k (k * n - 1 + n) (omega arith) (omega arith))

multiple_above : (n k : ℕ) → 0 < n → k * n / n * n ≡ k * n
multiple_above n k h =
    ap (λ (q : ℕ). q * n) (quotient_unique n k (k * n) (omega arith) (omega arith))

floor_to-neg : (n k : ℕ) → 0 < n → floor_to n (sub_ℕ 0 (k * n)) ≡ sub_ℕ 0 (k * n)
unfolding floor_to
floor_to-neg n k h = ground (arith, multiple_below n k h, multiple_above n k h)

-- A start is its own start.
pub window_start_idem :
    (size : ℕ) (t : ℤ) → 0 < size → window_start size (window_start size t) ≡ window_start size t
unfolding window_start floor_to
window_start_idem size (pos a) h = ap pos (multiple_above size (a / size) h)
window_start_idem size (negsuc a) h = floor_to-neg size ((a + size) / size) h

above_one : (n b : ℕ) → 0 < n → n ≤ (b + n) / n * n
above_one n b h = grind arith

same_multiple : (n k x : ℕ) → k * n ≤ x → x < k * n + n → x / n * n ≡ k * n
same_multiple n k x h l =
    ap (λ (q : ℕ). q * n) (quotient_unique n k x h (subst (λ m. x < m) (next_multiple n k) l))
  where
    next_multiple : (n k : ℕ) → k * n + n ≡ suc k * n
    next_multiple n k = grind arith

-- An aligned start is that of each time from it up to the end of its window.
pub floor_unique :
    (size : ℕ) (t s : ℤ)
    → 0 < size
    → floor_to size s ≡ s
    → s ≤ℤ t
    → t <ℤ s +ℤ pos size
    → floor_to size t ≡ s
unfolding floor_to
floor_unique size (pos a) (pos b) h e l u =
    let k : b / size * size ≡ b = ground (arith, e) in
    ap pos (
      same_multiple size (b / size) a (omega (arith, k))
        (omega (arith, k, +ℤ_parts (pos b) (pos size)))
      ∙ k)
floor_unique size (negsuc a) (pos b) h e l u = absurd (omega arith)
floor_unique size (pos a) (negsuc b) h e l u =
    let k : (b + size) / size * size ≡ suc b = ground (arith, e) in
    absurd (omega (arith, k, above_one size b h, +ℤ_parts (negsuc b) (pos size)))
floor_unique size (negsuc a) (negsuc b) h e l u =
    let k : (b + size) / size * size ≡ suc b = ground (arith, e) in
    let q : (a + size) / size * size ≡ suc b =
      same_multiple size ((b + size) / size) (a + size)
        (omega (arith, k, +ℤ_parts (negsuc b) (pos size))) (omega (arith, k))
      ∙ k in
    ground (arith, q)
