-- ===== src/Availability/Interval.antt =====
-- The interval arithmetic of availability_service.py: `union`, `subtract`, `clip`.
-- A time is the number of microseconds since some epoch, the resolution of Python's `datetime`.
use mathlib.Core.List.{foldl, reverse}
use nautobot_maps.Prelude.{
  ℕ, ◌+◌, ◌-◌, min, max, Bool, ◌&&◌, ◌||◌, List, [], ◌∷◌, ◌++◌, ltb, leb, ◌==◌, if◌then◌else◌,
  filter, sort_by, map,
}

abbrev pub Time : Type 0
Time = ℕ

-- `(start, end)`, the end exclusive.
abbrev pub Interval : Type 0
Interval = Time × Time

-- Tuples are sorted by the first field, then by the second.
abbrev pub not_after : Interval → Interval → Bool
not_after (s, e) (s', e') = ltb s s' || (s == s' && leb e e')

abbrev pub is_nonempty : Interval → Bool
is_nonempty (s, e) = ltb s e

-- One round of the loop of `union`; `merged` is kept last first, so `merged[-1]` is its head.
unfoldable pub merge_step : List Interval → Interval → List Interval
merge_step [] i = i ∷ []
merge_step ((ms, me) ∷ merged) (s, e) =
    if leb s me then (ms, max me e) ∷ merged else (s, e) ∷ (ms, me) ∷ merged

unfoldable pub union : List Interval → List Interval
unfolding merge_step
union l = reverse (foldl merge_step [] (sort_by not_after (filter is_nonempty l)))

-- The inner loop's body: what is left of one piece beside one hole.
unfoldable pub cut_piece : Interval → Interval → List Interval
cut_piece (hs, he) (ps, pe) =
    if leb he ps || leb pe hs
    then (ps, pe) ∷ []
    else (if ltb ps hs then (ps, hs) ∷ [] else []) ++ (if ltb he pe then (he, pe) ∷ [] else [])

unfoldable pub cut_pieces : Interval → List Interval → List Interval
unfolding cut_piece
cut_pieces hole [] = []
cut_pieces hole (p ∷ pieces) = cut_piece hole p ++ cut_pieces hole pieces

unfoldable pub cut_holes : List Interval → List Interval → List Interval
unfolding cut_pieces
cut_holes [] pieces = pieces
cut_holes (hole ∷ holes) pieces = cut_holes holes (cut_pieces hole pieces)

unfoldable pub cut_all : List Interval → List Interval → List Interval
unfolding cut_holes
cut_all holes [] = []
cut_all holes (i ∷ l) = cut_holes holes (i ∷ []) ++ cut_all holes l

unfoldable pub subtract : List Interval → List Interval → List Interval
unfolding cut_all union
subtract intervals holes = cut_all (union holes) (union intervals)

unfoldable pub clip : List Interval → Time → Time → List Interval
clip l start end =
    map (λ i. (max i.0 start, min i.1 end)) (filter (λ i. ltb start i.1 && ltb i.0 end) l)

-- The sum of the lengths, in microseconds.
unfoldable pub total_length : List Interval → ℕ
total_length [] = 0
total_length ((s, e) ∷ l) = (e - s) + total_length l

abbrev pub microseconds : ℕ
microseconds = 1_000_000
