-- ===== src/Common/Books.antt =====
-- The counts of the open windows of an engine and of its closed ones, for strict/engine.py and
-- heuristic/engine.py, whose window states are different types with a count each.
use csdlpt.Prelude.{
  ℕ, ◌+◌, ◌≡◌, refl, ◌∙◌, arith, ◌⊎◌, none, some, [], ◌∷◌, ℤ, int_eq, eqb_ℤ, eqb_ℤ_iff,
  if◌then◌else◌,
}
use csdlpt.Prelude.Dict
use csdlpt.Prelude.Dict.{
  Dict, IsDict, get-put, get-remove, put-IsDict, remove-IsDict, total-put, total-remove,
}
use csdlpt.Prelude.Sort.{insert, sort}
use csdlpt.Common.Types.{WindowResult}

abbrev pub open_count : {W : Type 0} → (W → ℕ) → Dict ℤ W → ℕ
open_count count = Dict.total count

abbrev pub closed_count : Dict ℤ WindowResult → ℕ
closed_count = Dict.total (λ r. r.count)

module _ {W : Type 0} where
  abbrev by_start : ℤ × W → ℤ
  by_start p = p.0

  get-insert :
      (p : ℤ × W) (d : Dict ℤ W) (k : ℤ)
      → Dict.get d p.0 ≡ none
      → Dict.get (insert by_start p d) k ≡ (if eqb_ℤ p.0 k then some p.1 else Dict.get d k)
  unfolding insert Dict.get
  get-insert p [] k h = refl
  get-insert p ((j, v) ∷ d) k h =
      ground (arith, eqb_ℤ_iff j p.0, eqb_ℤ_iff j k, eqb_ℤ_iff p.0 k, get-insert p d k)

  insert-IsDict :
      (p : ℤ × W) (d : Dict ℤ W) → Dict.get d p.0 ≡ none → IsDict d → IsDict (insert by_start p d)
  unfolding insert Dict.get
  insert-IsDict p [] h u = (refl, tt)
  insert-IsDict p ((j, v) ∷ d) h u =
      ground (arith, eqb_ℤ_iff j p.0, eqb_ℤ_iff p.0 j, get-insert p d j, insert-IsDict p d)

  count-insert :
      (count : W → ℕ) (p : ℤ × W) (d : Dict ℤ W)
      → open_count count (insert by_start p d) ≡ count p.1 + open_count count d
  unfolding insert Dict.total
  count-insert count p [] = refl
  count-insert count p ((j, v) ∷ d) = ground (arith, count-insert count p d)

  get-sort : (d : Dict ℤ W) (k : ℤ) → IsDict d → Dict.get (sort by_start d) k ≡ Dict.get d k
  unfolding sort Dict.get
  get-sort [] k u = refl
  get-sort ((j, v) ∷ d) k u =
      ground (arith, get-insert (j, v) (sort by_start d) k, get-sort d j u.1, get-sort d k u.1)

  sort-IsDict : (d : Dict ℤ W) → IsDict d → IsDict (sort by_start d)
  unfolding sort
  sort-IsDict [] u = tt
  sort-IsDict ((j, v) ∷ d) u =
      insert-IsDict (j, v) (sort by_start d) (get-sort d j u.1 ∙ u.0) (sort-IsDict d u.1)

  count-sort :
      (count : W → ℕ) (d : Dict ℤ W) → open_count count (sort by_start d) ≡ open_count count d
  unfolding sort Dict.total
  count-sort count [] = refl
  count-sort count ((j, v) ∷ d) =
      ground (arith, count-insert count (j, v) (sort by_start d), count-sort count d)

-- `n` events stand in the windows, no window is listed twice, and none is both open and closed.
pub record BooksOf (W : Type 0) (count : W → ℕ) (windows : Dict ℤ W) (closed : Dict ℤ WindowResult)
    (n : ℕ) : Type 0 where
  pub counted : n ≡ open_count count windows + closed_count closed
  pub unique_open : IsDict windows
  pub unique_closed : IsDict closed
  pub apart : (w : ℤ) → (Dict.get windows w ≡ none) ⊎ (Dict.get closed w ≡ none)

module _ {W : Type 0} {count : W → ℕ} where
  pub Books-close :
      {windows : Dict ℤ W} {closed : Dict ℤ WindowResult} {n : ℕ} (w : ℤ) (st : W)
      (r : WindowResult)
      → Dict.get windows w ≡ some st
      → r.count ≡ count st
      → BooksOf W count windows closed n
      → BooksOf W count (Dict.remove windows w) (Dict.put closed w r) n
  Books-close {windows} {closed} w st r here same b = record {
    counted = ground (
      arith,
      b.apart w,
      total-remove count windows w b.unique_open,
      total-put (λ s. s.count) closed w r,
    );
    unique_open = remove-IsDict windows w b.unique_open;
    unique_closed = put-IsDict closed w r b.unique_closed;
    apart = λ v. ground (arith, b.apart v, get-remove windows w v, get-put closed w v r);
  }

  pub Books-put :
      {windows : Dict ℤ W} {closed : Dict ℤ WindowResult} {n : ℕ} (w : ℤ) (new : W)
      → Dict.get closed w ≡ none
      → count new ≡ Dict.measure count (Dict.get windows w) + 1
      → BooksOf W count windows closed n
      → BooksOf W count (Dict.put windows w new) closed (n + 1)
  Books-put {windows} {closed} w new fresh more b = record {
    counted = omega (arith, b.counted, more, total-put count windows w new);
    unique_open = put-IsDict windows w new b.unique_open;
    unique_closed = b.unique_closed;
    apart = λ v. ground (arith, b.apart v, get-put windows w v new, eqb_ℤ_iff w v);
  }

  -- The windows in the order in which `flush` takes them keep the books.
  pub Books-sort :
      {windows : Dict ℤ W} {closed : Dict ℤ WindowResult} {n : ℕ}
      → BooksOf W count windows closed n
      → BooksOf W count (sort by_start windows) closed n
  Books-sort {windows} b = record {
    counted = rw (count-sort count) b.counted;
    unique_open = sort-IsDict windows b.unique_open;
    unique_closed = b.unique_closed;
    apart = λ w. rw (get-sort windows w b.unique_open) (b.apart w);
  }

  -- Taking the first window of the list over to the closed ones.
  pub Books-take :
      {rest : Dict ℤ W} {closed : Dict ℤ WindowResult} {n : ℕ} (w : ℤ) (st : W) (r : WindowResult)
      → r.count ≡ count st
      → BooksOf W count ((w, st) ∷ rest) closed n
      → BooksOf W count rest (Dict.put closed w r) n
  unfolding Dict.get Dict.total
  Books-take {rest} {closed} w st r same b = record {
    counted =
        ground (arith, b.counted, b.apart w, eqb_ℤ_iff w w, total-put (λ s. s.count) closed w r);
    unique_open = b.unique_open.1;
    unique_closed = put-IsDict closed w r b.unique_closed;
    apart = λ v. ground (arith, b.apart v, b.unique_open.0, eqb_ℤ_iff w v, get-put closed w v r);
  }
