-- ===== src/Heuristic/Dlq/Grouping.antt =====
-- heuristic/dlq.py: the corrections account for each late event once.
use csdlpt.Prelude.{
  ℕ, suc, ◌+◌, ◌≡◌, ◌<◌, ◌==◌, ◌&&◌, ◌∙◌, ℤ, pos, ◌+ℤ◌, leb_ℤ, ltb_ℤ, floor_to, refl, ap, subst,
  inl, inr, Bool-cases, eqb_ℤ, eqb_ℤ_iff, ◌≤ℤ◌, ◌<ℤ◌, arith, Bool, String, Option, none, List, [],
  ◌∷◌, ◌++◌, length, length-append, keep, if◌then◌else◌,
}
use csdlpt.Prelude.Dict
use csdlpt.Prelude.Dict.{Dict, IsDict, get-put, put-IsDict, beq_refl}
use csdlpt.Common.Window.{window_start}
use csdlpt.Common.Window.Floor.{window_start_bounds, floor_unique}
use csdlpt.Heuristic.Dlq.Pipeline.{DlqEntry}
use csdlpt.Heuristic.Dlq.Corrections.{
  GroupId, group_beq, group_beq_iff, group_eq, CorrectionMessage, Previous, group_of, append_to,
  group, correction, corrections_of, compute_corrections,
}

size_of : Option (List DlqEntry) → ℕ
size_of o = Dict.measure length o

abbrev pub late_in : ℕ → GroupId → List DlqEntry → ℕ
late_in window_size w l = length (keep (λ e. group_beq (group_of window_size e) w) l)

append_to-size :
    (k w : GroupId) (e : DlqEntry) (d : Dict GroupId (List DlqEntry))
    → size_of (Dict.get (append_to k e d) w)
      ≡ (if group_beq k w then size_of (Dict.get d w) + 1 else size_of (Dict.get d w))
unfolding size_of
append_to-size k w e d = ground (
  arith,
  get-put d k w (Dict.get_or (Dict.get d k) [] ++ e ∷ []),
  group_beq_iff k w,
  length-append (Dict.get_or (Dict.get d k) []) (e ∷ []),
)

group-size :
    (window_size : ℕ) (l : List DlqEntry) (w : GroupId) (d : Dict GroupId (List DlqEntry))
    → size_of (Dict.get (group window_size l d) w)
      ≡ size_of (Dict.get d w) + late_in window_size w l
unfolding group keep
group-size window_size [] w d = omega arith
group-size window_size (e ∷ l) w d = ground (
  arith,
  group-size window_size l w (append_to (group_of window_size e) e d),
  append_to-size (group_of window_size e) w e d,
)

group-IsDict :
    (window_size : ℕ) (l : List DlqEntry) (d : Dict GroupId (List DlqEntry))
    → IsDict d
    → IsDict (group window_size l d)
unfolding group
group-IsDict window_size [] d h = h
group-IsDict window_size (e ∷ l) d h =
    group-IsDict window_size l (append_to (group_of window_size e) e d)
      (put-IsDict d (group_of window_size e) _ h)

-- The deltas of all corrections of a window, summed.
unfoldable pub delta_of : GroupId → List CorrectionMessage → ℕ
delta_of w [] = 0
delta_of w (c ∷ l) = if group_beq c.window_id w then c.delta_count + delta_of w l else delta_of w l

module _ (uuid4 : ℕ → String) (lookup : Option (GroupId → Option Previous)) (now : ℕ)
    (is_final : Bool) where
  delta_of-none :
      (n : ℕ) (d : Dict GroupId (List DlqEntry)) (w : GroupId)
      → Dict.get d w ≡ none
      → delta_of w (corrections_of uuid4 lookup now is_final n d) ≡ 0
  unfolding delta_of corrections_of correction Dict.get
  delta_of-none n [] w h = refl
  delta_of-none n ((k, evts) ∷ d) w h = ground (arith, delta_of-none (suc n) d w)

  delta_of-corrections_of :
      (n : ℕ) (d : Dict GroupId (List DlqEntry)) (w : GroupId)
      → IsDict d
      → delta_of w (corrections_of uuid4 lookup now is_final n d) ≡ size_of (Dict.get d w)
  unfolding delta_of corrections_of correction Dict.get size_of
  delta_of-corrections_of n [] w h = refl
  delta_of-corrections_of n ((k, evts) ∷ d) w h =
      ground (
        arith,
        delta_of-corrections_of (suc n) d w h.1,
        delta_of-none (suc n) d w,
        group_beq_iff k w,
      )

  -- The corrections of a group, by the code's own grouping.
  delta_of-compute_corrections :
      (window_size : ℕ) (entries : List DlqEntry) (w : GroupId)
      → delta_of w (compute_corrections uuid4 lookup now is_final window_size entries)
        ≡ late_in window_size w entries
  unfolding compute_corrections size_of Dict.get
  delta_of-compute_corrections window_size entries w = omega (
    arith,
    delta_of-corrections_of 0 (group window_size entries []) w
        (group-IsDict window_size entries [] tt),
    group-size window_size entries w [],
  )

-- The partition is the window's, and the event time lies from its start up to its end.
unfoldable pub lies_in : ℕ → ℕ → ℤ → DlqEntry → Bool
lies_in window_size partition start e =
    e.partition_id == partition
    && (leb_ℤ start e.T_event && ltb_ℤ e.T_event (start +ℤ pos window_size))

unfoldable pub count_in : ℕ → ℕ → ℤ → List DlqEntry → ℕ
count_in window_size partition start [] = 0
count_in window_size partition start (e ∷ l) =
    (if lies_in window_size partition start e then 1 else 0)
    + count_in window_size partition start l

-- A multiple of the window's size, from which a window starts.
unfoldable pub IsAligned : ℕ → ℤ → Type 0
IsAligned window_size start = floor_to window_size start ≡ start

starts_at :
    (window_size : ℕ) (start t : ℤ)
    → 0 < window_size
    → IsAligned window_size start
    → eqb_ℤ (floor_to window_size t) start ≡ leb_ℤ start t && ltb_ℤ t (start +ℤ pos window_size)
unfolding IsAligned
starts_at window_size start t h a = elim (Bool-cases (eqb_ℤ (floor_to window_size t) start)) [
  | inl e ↦
      let same : floor_to window_size t ≡ start = (eqb_ℤ_iff (floor_to window_size t) start).0 e in
      let b : (start ≤ℤ t) × (t <ℤ start +ℤ pos window_size) =
        subst (λ s. (s ≤ℤ t) × (t <ℤ s +ℤ pos window_size)) same
          (unfold window_start in window_start_bounds window_size t h) in
      rw e (ground (arith, b))
  | inr e ↦ rw e (
      ground
        (arith, floor_unique window_size t start h a, eqb_ℤ_iff (floor_to window_size t) start))
]

group_of-lies_in :
    (window_size partition : ℕ) (start : ℤ) (e : DlqEntry)
    → 0 < window_size
    → IsAligned window_size start
    → group_beq (group_of window_size e) (record { partition = partition; start = start })
      ≡ lies_in window_size partition start e
unfolding group_beq lies_in IsAligned
group_of-lies_in window_size partition start e h a =
    ap (λ b. e.partition_id == partition && b) (starts_at window_size start e.T_event h a)

late_in-count_in :
    (window_size partition : ℕ) (start : ℤ) (l : List DlqEntry)
    → 0 < window_size
    → IsAligned window_size start
    → late_in window_size (record { partition = partition; start = start }) l
      ≡ count_in window_size partition start l
unfolding count_in keep
late_in-count_in window_size partition start [] h a = refl
late_in-count_in window_size partition start (e ∷ l) h a = ground (
  arith,
  group_of-lies_in window_size partition start e h a,
  late_in-count_in window_size partition start l h a,
)

-- With windows of a positive size, and for a start that is a multiple of it, the corrections that
-- `compute_corrections` makes of a window add up to the number of the entries of its partition whose
-- event time lies from the start up to, and not at, the end of the window.
pub compute_corrections_count :
    (uuid4 : ℕ → String) (lookup : Option (GroupId → Option Previous)) (now : ℕ) (is_final : Bool)
    (window_size partition : ℕ) (start : ℤ) (entries : List DlqEntry)
    → 0 < window_size
    → IsAligned window_size start
    → delta_of
        (record { partition = partition; start = start })
        (compute_corrections uuid4 lookup now is_final window_size entries)
      ≡ count_in window_size partition start entries
compute_corrections_count uuid4 lookup now is_final window_size partition start entries h a =
    delta_of-compute_corrections uuid4 lookup now is_final window_size entries
      (record { partition = partition; start = start })
    ∙ late_in-count_in window_size partition start entries h a
