-- ===== src/Prelude/Mark.antt =====
-- A watermark: a time in milliseconds, or `float("-inf")`.
use mathlib.Core.Path.{◌≡◌, refl}
use mathlib.Core.Logic.{◌⊎◌, ◌↔◌}
use mathlib.Core.Bool.{Bool, true, false}
use native.Mathlib.Omega.{arith}
use csdlpt.Prelude.Tests.{if◌then◌else◌}
use csdlpt.Prelude.Int.{ℤ, ltb_ℤ, leb_ℤ, ◌≤ℤ◌}

pub data Mark : Type 0 where
  neg_inf : Mark
  at : ℤ → Mark

-- `a < b` on floats
abbrev pub lt : Mark → Mark → Bool
lt a neg_inf = false
lt neg_inf (at b) = true
lt (at a) (at b) = ltb_ℤ a b

-- `a <= b` on floats
abbrev pub le : Mark → Mark → Bool
le neg_inf b = true
le (at a) neg_inf = false
le (at a) (at b) = leb_ℤ a b

-- Python's `max(a, b)` and `min(a, b)`: the first of equals.
unfoldable pub max : Mark → Mark → Mark
max a b = if lt a b then b else a

unfoldable pub min : Mark → Mark → Mark
min a b = if lt b a then b else a

infix 50 ◌⊑◌
abbrev pub ◌⊑◌ : Mark → Mark → Type 0
neg_inf ⊑ b = Unit {0}
at a ⊑ neg_inf = ⊥
at a ⊑ at b = a ≤ℤ b

pub ⊑_refl : (a : Mark) → a ⊑ a
⊑_refl neg_inf = tt
⊑_refl (at a) = omega arith

pub ⊑_trans : (a b c : Mark) → a ⊑ b → b ⊑ c → a ⊑ c
⊑_trans neg_inf b c p q = tt
⊑_trans (at a) neg_inf c p q = elim p [ ]
⊑_trans (at a) (at b) neg_inf p q = elim q [ ]
⊑_trans (at a) (at b) (at c) p q = omega arith

pub ⊑_antisymm : (a b : Mark) → a ⊑ b → b ⊑ a → a ≡ b
⊑_antisymm neg_inf neg_inf p q = refl
⊑_antisymm neg_inf (at b) p q = elim q [ ]
⊑_antisymm (at a) neg_inf p q = elim p [ ]
⊑_antisymm (at a) (at b) p q = ground arith

pub le_iff : (a b : Mark) → (le a b ≡ true) ↔ (a ⊑ b)
le_iff neg_inf b = ((λ _. tt), (λ _. refl))
le_iff (at a) neg_inf = ((λ h. cc), (λ h. absurd h))
le_iff (at a) (at b) = ground arith

pub lt_le : (a b : Mark) → lt a b ≡ true → a ⊑ b
lt_le neg_inf b h = tt
lt_le (at a) neg_inf h = cc
lt_le (at a) (at b) h = ground arith

pub le-lt : (a b : Mark) → le b a ≡ true → lt a b ≡ false
le-lt a neg_inf h = refl
le-lt neg_inf (at b) h = cc
le-lt (at a) (at b) h = ground arith

pub max_left : (a b : Mark) → a ⊑ max a b
unfolding max
max_left neg_inf b = tt
max_left (at a) neg_inf = omega arith
max_left (at a) (at b) = ground arith

pub max_right : (a b : Mark) → b ⊑ max a b
unfolding max
max_right a neg_inf = tt
max_right neg_inf (at b) = omega arith
max_right (at a) (at b) = ground arith

pub max_cases : (a b : Mark) → (max a b ≡ a) ⊎ (max a b ≡ b)
unfolding max
max_cases a b = ground arith

pub min_left : (a b : Mark) → min a b ⊑ a
unfolding min
min_left neg_inf b = tt
min_left (at a) neg_inf = tt
min_left (at a) (at b) = ground arith

pub min_right : (a b : Mark) → min a b ⊑ b
unfolding min
min_right neg_inf neg_inf = tt
min_right neg_inf (at b) = tt
min_right (at a) neg_inf = tt
min_right (at a) (at b) = ground arith

pub min_cases : (a b : Mark) → (min a b ≡ a) ⊎ (min a b ≡ b)
unfolding min
min_cases a b = ground arith
