-- ===== src/Availability/Union.antt =====
-- `union` puts a list of intervals into the normal form and covers the same instants.
use mathlib.Core.List.{foldl, reverse, reverse_aux}
use nautobot_maps.Prelude.{
  suc, ◌≤◌, ◌<◌, max, ◌≡◌, refl, ap, ◌∙◌, ◌||◌, List, [], ◌∷◌, leb, arith, filter, insert_by,
  sort_by, if◌then◌else◌, inl, inr, Bool-cases,
}
use nautobot_maps.Availability.Interval.{Time, Interval, not_after, is_nonempty, merge_step, union}
use nautobot_maps.Availability.Cover.{holds, covers, NormalFrom, IsNormal}

-- The intervals start at `b` or later, in order of their starts, and none is empty.
abbrev RisingFrom : Time → List Interval → Type 0
RisingFrom b [] = Unit
RisingFrom b ((s, e) ∷ l) = (b ≤ s) × (s < e) × RisingFrom s l

covers-filter : (t : Time) (l : List Interval) → covers t (filter is_nonempty l) ≡ covers t l
unfolding covers
covers-filter t [] = refl
covers-filter t (i ∷ l) = ground (arith, covers-filter t l)

covers-insert_by :
    (t : Time) (i : Interval) (l : List Interval)
    → covers t (insert_by not_after i l) ≡ (holds t i || covers t l)
unfolding covers
covers-insert_by t i [] = refl
covers-insert_by t i (j ∷ l) = ground (arith, covers-insert_by t i l)

covers-sort_by : (t : Time) (l : List Interval) → covers t (sort_by not_after l) ≡ covers t l
unfolding covers
covers-sort_by t [] = refl
covers-sort_by t (i ∷ l) =
    covers-insert_by t i (sort_by not_after l) ∙ ap (λ b. holds t i || b) (covers-sort_by t l)

RisingFrom-weaken : (b c : Time) (l : List Interval) → b ≤ c → RisingFrom c l → RisingFrom b l
RisingFrom-weaken b c [] h r = tt
RisingFrom-weaken b c (i ∷ l) h r = (omega arith, r.1, r.2)

insert_by-RisingFrom :
    (b : Time) (i : Interval) (l : List Interval)
    → b ≤ i.0
    → i.0 < i.1
    → RisingFrom b l
    → RisingFrom b (insert_by not_after i l)
insert_by-RisingFrom b i [] h k r = (h, k, tt)
insert_by-RisingFrom b i (j ∷ l) h k r =
    ground (arith, insert_by-RisingFrom j.0 i l, RisingFrom-weaken i.0 j.0 l)

sort_by-RisingFrom : (l : List Interval) → RisingFrom 0 (sort_by not_after (filter is_nonempty l))
sort_by-RisingFrom [] = tt
sort_by-RisingFrom (i ∷ l) = ground (
  arith,
  sort_by-RisingFrom l,
  insert_by-RisingFrom 0 i (sort_by not_after (filter is_nonempty l)),
)

-- The loop of `union` as a plain recursion: `m` is the last merged interval.
merge_from : Interval → List Interval → List Interval
merge_from m [] = m ∷ []
merge_from m (i ∷ l) =
    let joined = merge_from (m.0, max m.1 i.1) l in
    let apart = merge_from i l in if leb i.0 m.1 then joined else m ∷ apart

merge_all : List Interval → List Interval
merge_all [] = []
merge_all (i ∷ l) = merge_from i l

foldl-merge_step :
    (m : Interval) (merged l : List Interval)
    → reverse (foldl merge_step (m ∷ merged) l) ≡ reverse_aux merged (merge_from m l)
unfolding merge_step merge_from
foldl-merge_step m merged [] = refl
foldl-merge_step m merged (i ∷ l) = elim (Bool-cases (leb i.0 m.1)) [
  | inl touch ↦ rw touch (foldl-merge_step (m.0, max m.1 i.1) merged l)
  | inr gap ↦ rw gap (foldl-merge_step i (m ∷ merged) l)
]

union-eq-merge_all :
    (l : List Interval) → union l ≡ merge_all (sort_by not_after (filter is_nonempty l))
unfolding union merge_all
union-eq-merge_all l = loop (sort_by not_after (filter is_nonempty l))
  where
    loop : (k : List Interval) → reverse (foldl merge_step [] k) ≡ merge_all k
    loop [] = refl
    loop (i ∷ k) = foldl-merge_step i [] k

covers-merge_from :
    (t : Time) (m : Interval) (l : List Interval)
    → RisingFrom m.0 l
    → covers t (merge_from m l) ≡ (holds t m || covers t l)
unfolding covers merge_from
covers-merge_from t m [] r = refl
covers-merge_from t m (i ∷ l) r = ground (
  arith,
  covers-merge_from t (m.0, max m.1 i.1) l (RisingFrom-weaken m.0 i.0 l r.0 r.2),
  covers-merge_from t i l r.2,
)

merge_from-NormalFrom :
    (b : Time) (m : Interval) (l : List Interval)
    → b ≤ m.0
    → m.0 < m.1
    → RisingFrom m.0 l
    → NormalFrom b (merge_from m l)
unfolding merge_from
merge_from-NormalFrom b m [] h k r = (h, k, tt)
merge_from-NormalFrom b m (i ∷ l) h k r = ground (
  arith,
  merge_from-NormalFrom b (m.0, max m.1 i.1) l h (omega arith)
      (RisingFrom-weaken m.0 i.0 l r.0 r.2),
  merge_from-NormalFrom (suc m.1) i l,
)

-- `union` covers exactly the instants that the intervals given cover.
pub covers-union : (t : Time) (l : List Interval) → covers t (union l) ≡ covers t l
unfolding covers merge_all
covers-union t l =
    ap (covers t) (union-eq-merge_all l)
    ∙ merged (sort_by not_after (filter is_nonempty l)) (sort_by-RisingFrom l)
    ∙ covers-sort_by t (filter is_nonempty l)
    ∙ covers-filter t l
  where
    merged : (k : List Interval) → RisingFrom 0 k → covers t (merge_all k) ≡ covers t k
    merged [] r = refl
    merged (i ∷ k) r = covers-merge_from t i k r.2

-- The result of `union` is sorted, no interval of it is empty, and no two touch or overlap.
pub union-IsNormal : (l : List Interval) → IsNormal (union l)
unfolding merge_all
union-IsNormal l =
    rw (union-eq-merge_all l)
      (merged (sort_by not_after (filter is_nonempty l)) (sort_by-RisingFrom l))
  where
    merged : (k : List Interval) → RisingFrom 0 k → IsNormal (merge_all k)
    merged [] r = tt
    merged (i ∷ k) r = merge_from-NormalFrom 0 i k r.0 r.1 r.2
