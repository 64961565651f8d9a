-- ===== src/Availability/CriticalTime.antt =====
-- When `read_critical` says that a site was at Critical, by the changes of its level.
use nautobot_maps.Prelude.{
  ◌≤◌, ◌<◌, min, ◌≡◌, refl, Bool, true, false, ◌&&◌, List, [], ◌∷◌, Option, none, some, ltb, leb,
  arith, filter, if◌then◌else◌, Bool-cases, inl, inr,
}
use nautobot_maps.Level.{Level, critical, level_eq}
use nautobot_maps.Availability.Interval.{Time}
use nautobot_maps.Availability.Cover.{covers}
use nautobot_maps.Availability.Critical.{
  Change, last_level, critical_loop, critical_intervals, critical_from,
}

-- The level that holds at an instant: of the last change by then.
abbrev pub level_at : Level → List Change → Time → Level
level_at level [] t = level
level_at level (c ∷ l) t = if leb c.at t then level_at c.to_level l t else level

-- The changes are in order, none before `b`.
abbrev pub InOrder : Time → List Change → Type 0
InOrder b [] = Unit
InOrder b (c ∷ l) = (b ≤ c.at) × InOrder c.at l

abbrev pub AllBefore : Time → List Change → Type 0
AllBefore end [] = Unit
AllBefore end (c ∷ l) = (c.at < end) × AllBefore end l

-- The intervals of the loop cover the instants from `since` to `end` at which the last change by
-- then left the site at Critical.
critical_loop_exact :
    (end t : Time) (level : Level) (since : Time) (during : List Change)
    → InOrder since during
    → AllBefore end during
    → covers t (critical_loop end level since during)
      ≡ ((leb since t && ltb t end) && level_eq (level_at level during t) critical)
unfolding critical_loop covers
critical_loop_exact end t level since [] o b = ground arith
critical_loop_exact end t level since (c ∷ during) o b =
    ground (arith, critical_loop_exact end t c.to_level c.at during o.1 b.1)

-- The three parts of a history.
abbrev pub early : Time → Change → Bool
early start c = leb c.at start

abbrev pub within : Time → Time → Change → Bool
within start end c = ltb start c.at && ltb c.at end

abbrev pub late : Time → Change → Bool
late end c = leb end c.at

abbrev or_else : Level → Option Level → Level
or_else level none = level
or_else level (some l) = l

last_level-cons :
    (c : Change) (l : List Change) → last_level (c ∷ l) ≡ some (or_else c.to_level (last_level l))
last_level-cons c [] = refl
last_level-cons c (d ∷ l) = rw (last_level-cons d l)

no_early :
    (start b : Time) (l : List Change) → start < b → InOrder b l → filter (early start) l ≡ []
no_early start b [] h o = refl
no_early start b (c ∷ l) h o = ground (arith, no_early start c.at l (omega arith) o.1)

no_within :
    (start end b : Time) (l : List Change)
    → end ≤ b
    → InOrder b l
    → filter (within start end) l ≡ []
no_within start end b [] h o = refl
no_within start end b (c ∷ l) h o = ground (arith, no_within start end c.at l (omega arith) o.1)

within-AllBefore :
    (start end : Time) (l : List Change) → AllBefore end (filter (within start end) l)
within-AllBefore start end [] = tt
within-AllBefore start end (c ∷ l) = ground (arith, within-AllBefore start end l)

within-InOrder :
    (start end a b : Time) (l : List Change)
    → a ≤ b
    → InOrder b l
    → InOrder a (filter (within start end) l)
within-InOrder start end a b [] h o = tt
within-InOrder start end a b (c ∷ l) h o = ground (
  arith,
  within-InOrder start end c.at c.at l (omega arith) o.1,
  within-InOrder start end a c.at l (omega arith) o.1,
)

-- In the period the level follows from the last early change and the changes within.
level_at-parts :
    (start end t b : Time) (level : Level) (l : List Change)
    → start ≤ t
    → t < end
    → InOrder b l
    → level_at level l t
      ≡ level_at
          (or_else level (last_level (filter (early start) l)))
          (filter (within start end) l)
          t
level_at-parts start end t b level [] p q o = refl
level_at-parts start end t b level (c ∷ l) p q o = ground (
  arith,
  last_level-cons c (filter (early start) l),
  no_early start c.at l,
  no_within start end c.at l,
  level_at-parts start end t c.at c.to_level l p q o.1,
)

-- Without an early change the level is known since the site was first seen, or from the start.
abbrev pub first_known : Time → Time → Option Time → Time
first_known start end none = start
first_known start end (some seen) = if ltb start seen then min seen end else start

-- The site was first seen no later than the instant, if it is known when.
abbrev pub SeenBy : Time → Option Time → Type 0
SeenBy t none = Unit
SeenBy t (some seen) = seen ≤ t

intervals_early :
    (start end : Time) (seen : Option Time) (c : Change) (l : List Change)
    → leb c.at start ≡ true
    → critical_intervals start end seen (c ∷ l)
      ≡ critical_loop end
          (or_else c.from_level (last_level (filter (early start) (c ∷ l))))
          start
          (filter (within start end) (c ∷ l))
unfolding critical_intervals critical_from
intervals_early start end seen c l h = ground (arith, last_level-cons c (filter (early start) l))

intervals_later :
    (start end : Time) (seen : Option Time) (c : Change) (l : List Change)
    → leb c.at start ≡ false
    → InOrder c.at l
    → critical_intervals start end seen (c ∷ l)
      ≡ critical_loop end c.from_level
          (first_known start end seen)
          (filter (within start end) (c ∷ l))
unfolding critical_intervals critical_from
intervals_later start end seen c l h o =
    ground (arith, no_early start c.at l, no_within start end c.at l)

within-InOrder_start :
    (start end b : Time) (l : List Change)
    → InOrder b l
    → InOrder start (filter (within start end) l)
within-InOrder_start start end b [] o = tt
within-InOrder_start start end b (c ∷ l) o = ground (
  arith,
  within-InOrder start end c.at c.at l (omega arith) o.1,
  within-InOrder_start start end c.at l o.1,
)

-- From when `read_critical` knows the site's level in the period.
abbrev pub known_since : Time → Time → Option Time → Change → Time
known_since start end seen c = if leb c.at start then start else first_known start end seen

first_known_bounds :
    (start end : Time) (seen : Option Time) (c : Change)
    → start < end
    → leb c.at start ≡ false
    → SeenBy c.at seen
    → (start ≤ first_known start end seen) × (first_known start end seen ≤ c.at)
first_known_bounds start end none c n h s = ground arith
first_known_bounds start end (some seen) c n h s = ground arith

-- In a period that is not empty, for a site whose changes are in order, and which was seen no
-- later than its first change, the intervals cover an instant exactly when it lies in the period,
-- the level was known by then, and the last change by then (the level before the first change, if
-- none) had it at Critical.
pub critical_intervals_exact :
    (start end t : Time) (seen : Option Time) (c : Change) (l : List Change)
    → start < end
    → InOrder 0 (c ∷ l)
    → SeenBy c.at seen
    → covers t (critical_intervals start end seen (c ∷ l)) ≡ (
        (leb (known_since start end seen c) t && ltb t end)
        && level_eq (level_at c.from_level (c ∷ l) t) critical)
critical_intervals_exact start end t seen c l n o s = elim (Bool-cases (leb c.at start)) [
  | inl h ↦ rw (intervals_early start end seen c l h) (
      ground (
        arith,
        critical_loop_exact end t (or_else c.from_level (last_level (filter (early start) (c ∷ l))))
            start (filter (within start end) (c ∷ l)) (within-InOrder_start start end 0 (c ∷ l) o)
            (within-AllBefore start end (c ∷ l)),
        level_at-parts start end t 0 c.from_level (c ∷ l),
      ))
  | inr h ↦
      let known : (start ≤ first_known start end seen) × (first_known start end seen ≤ c.at) =
        first_known_bounds start end seen c n h s in
      rw (intervals_later start end seen c l h o.1) (
        ground (
          arith,
          critical_loop_exact end t c.from_level (first_known start end seen)
              (filter (within start end) (c ∷ l))
              (within-InOrder start end (first_known start end seen) c.at (c ∷ l) known.1
                (omega arith, o.1))
              (within-AllBefore start end (c ∷ l)),
          level_at-parts start end t 0 c.from_level (c ∷ l),
          no_early start c.at l,
        ))
]
