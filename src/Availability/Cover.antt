-- ===== src/Availability/Cover.antt =====
-- What a list of intervals means: the instants that it covers; and its normal form.
use nautobot_maps.Prelude.{
  suc, ◌≤◌, ◌<◌, ◌≡◌, refl, Bool, false, ◌&&◌, ◌||◌, List, [], ◌∷◌, ◌++◌, ltb, leb, arith,
}
use nautobot_maps.Availability.Interval.{Time, Interval}

abbrev pub holds : Time → Interval → Bool
holds t (s, e) = leb s t && ltb t e

-- Some interval of the list holds the instant.
unfoldable pub covers : Time → List Interval → Bool
covers t [] = false
covers t (i ∷ l) = holds t i || covers t l

-- The intervals start at `b` or later, none is empty, and a gap lies between any two.
abbrev pub NormalFrom : Time → List Interval → Type 0
NormalFrom b [] = Unit
NormalFrom b ((s, e) ∷ l) = (b ≤ s) × (s < e) × NormalFrom (suc e) l

-- Sorted, disjoint, not touching, none empty.
abbrev pub IsNormal : List Interval → Type 0
IsNormal = NormalFrom 0

-- No interval ends after `c`.
abbrev pub EndsBy : Time → List Interval → Type 0
EndsBy c [] = Unit
EndsBy c ((s, e) ∷ l) = (e ≤ c) × EndsBy c l

pub covers-append :
    (t : Time) (a b : List Interval) → covers t (a ++ b) ≡ (covers t a || covers t b)
unfolding covers
covers-append t [] b = refl
covers-append t (i ∷ a) b = ground (arith, covers-append t a b)

pub NormalFrom-weaken : (b c : Time) (l : List Interval) → b ≤ c → NormalFrom c l → NormalFrom b l
NormalFrom-weaken b c [] h n = tt
NormalFrom-weaken b c (i ∷ l) h n = (omega arith, n.1, n.2)

-- Before its first interval a normal list covers nothing.
pub covers-before : (t b : Time) (l : List Interval) → NormalFrom b l → t < b → covers t l ≡ false
unfolding covers
covers-before t b [] n h = refl
covers-before t b ((s, e) ∷ l) n h = ground (arith, covers-before t (suc e) l n.2)

pub NormalFrom-append :
    (b c : Time) (a l : List Interval)
    → b ≤ suc c
    → NormalFrom b a
    → EndsBy c a
    → NormalFrom (suc c) l
    → NormalFrom b (a ++ l)
NormalFrom-append b c [] l h n e m = NormalFrom-weaken b (suc c) l h m
NormalFrom-append b c ((s, t) ∷ a) l h n e m =
    (n.0, n.1, NormalFrom-append (suc t) c a l (omega arith) n.2 e.1 m)
