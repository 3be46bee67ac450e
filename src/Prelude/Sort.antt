-- ===== src/Prelude/Sort.antt =====
-- Python's stable `sorted`, by a key that is a time.
use Prim.Native.Nat.{suc}
use mathlib.Core.Path.{◌≡◌, refl, ◌∙◌}
use mathlib.Core.Bool.{true, false}
use mathlib.Core.List.{List, [], ◌∷◌}
use native.Mathlib.Omega.{arith}
use csdlpt.Prelude.Lists.{length}
use csdlpt.Prelude.Equal.{Eq, elem, int_eq}
use csdlpt.Prelude.Tests.{if◌then◌else◌}
use csdlpt.Prelude.Int.{ℤ, ltb_ℤ, eqb_ℤ, eqb_ℤ_iff}

module _ {ℓ} {A : Type ℓ} (key : A → ℤ) where
  -- Before the first element with a larger key, so that equals keep their order.
  unfoldable pub insert : A → List A → List A
  insert a [] = a ∷ []
  insert a (x ∷ xs) = if ltb_ℤ (key x) (key a) then x ∷ insert a xs else a ∷ x ∷ xs

  unfoldable pub sort : List A → List A
  unfolding insert
  sort [] = []
  sort (x ∷ xs) = insert x (sort xs)

elem-insert :
    (w v : ℤ) (l : List ℤ) → elem v (insert (λ x. x) w l) ≡ (if eqb_ℤ w v then true else elem v l)
unfolding insert elem
elem-insert w v [] = refl
elem-insert w v (x ∷ l) = ground (arith, elem-insert w v l)

pub elem-sort : (v : ℤ) (l : List ℤ) → elem v (sort (λ x. x) l) ≡ elem v l
unfolding sort elem
elem-sort v [] = refl
elem-sort v (x ∷ l) = ground (arith, elem-insert x v (sort (λ y. y) l), elem-sort v l)

-- No element twice.
abbrev pub Distinct : List ℤ → Type 0
Distinct [] = Unit {0}
Distinct (x ∷ l) = (elem x l ≡ false) × Distinct l

insert-Distinct :
    (w : ℤ) (l : List ℤ) → elem w l ≡ false → Distinct l → Distinct (insert (λ x. x) w l)
unfolding insert elem
insert-Distinct w [] h k = (refl, tt)
insert-Distinct w (x ∷ l) h k =
    ground (arith, insert-Distinct w l, elem-insert w x l, eqb_ℤ_iff x w, eqb_ℤ_iff w x)

pub sort-Distinct : (l : List ℤ) → Distinct l → Distinct (sort (λ x. x) l)
unfolding sort
sort-Distinct [] h = tt
sort-Distinct (x ∷ l) h =
    insert-Distinct x (sort (λ y. y) l) (elem-sort x l ∙ h.0) (sort-Distinct l h.1)

length-insert {ℓ} :
    {A : Type ℓ} (key : A → ℤ) (a : A) (l : List A) → length (insert key a l) ≡ suc (length l)
unfolding insert
length-insert key a [] = refl
length-insert key a (x ∷ l) = ground (arith, length-insert key a l)

pub length-sort {ℓ} : {A : Type ℓ} (key : A → ℤ) (l : List A) → length (sort key l) ≡ length l
unfolding sort
length-sort key [] = refl
length-sort key (x ∷ l) = omega (arith, length-insert key x (sort key l), length-sort key l)

module _ {ℓ} {A : Type ℓ} ⦃e : Eq A⦄ (key : A → ℤ) where
  elem-insert_by :
      (w v : A) (l : List A) → elem v (insert key w l) ≡ (if e.beq w v then true else elem v l)
  unfolding insert elem
  elem-insert_by w v [] = refl
  elem-insert_by w v (x ∷ l) = ground (arith, elem-insert_by w v l)

  -- Sorting keeps the elements.
  pub elem-sort_by : (v : A) (l : List A) → elem v (sort key l) ≡ elem v l
  unfolding sort elem
  elem-sort_by v [] = refl
  elem-sort_by v (x ∷ l) = ground (arith, elem-insert_by x v (sort key l), elem-sort_by v l)
