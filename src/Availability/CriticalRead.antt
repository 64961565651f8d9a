-- ===== src/Availability/CriticalRead.antt =====
-- `read_critical` reads only a part of the history, and that is enough.
use nautobot_maps.Prelude.{
  ◌<◌, ◌≡◌, refl, Bool, true, false, List, [], ◌∷◌, ◌++◌, Option, arith, filter, all,
}
use mathlib.Core.List.{append-nil}
use nautobot_maps.Availability.Interval.{Time}
use nautobot_maps.Availability.Critical.{
  Change, last_level, critical_intervals, last_only, first_only, select_changes, critical_from,
}
use nautobot_maps.Availability.CriticalTime.{early, within, late}

all-filter : (p : Change → Bool) (l : List Change) → all p (filter p l) ≡ true
all-filter p [] = refl
all-filter p (c ∷ l) = ground (arith, all-filter p l)

all-last_only : (p : Change → Bool) (l : List Change) → all p l ≡ true → all p (last_only l) ≡ true
all-last_only p [] h = refl
all-last_only p (c ∷ []) h = h
all-last_only p (c ∷ d ∷ l) h = all-last_only p (d ∷ l) (ground arith)

all-first_only :
    (p : Change → Bool) (l : List Change) → all p l ≡ true → all p (first_only l) ≡ true
all-first_only p [] h = refl
all-first_only p (c ∷ l) h = ground arith

-- A test that holds wherever `p` does keeps a list on which `p` holds; one that fails drops it.
filter_keeps :
    (p q : Change → Bool) (l : List Change)
    → ((c : Change) → p c ≡ true → q c ≡ true)
    → all p l ≡ true
    → filter q l ≡ l
filter_keeps p q [] h a = refl
filter_keeps p q (c ∷ l) h a = ground (arith, h c, filter_keeps p q l h)

filter_drops :
    (p q : Change → Bool) (l : List Change)
    → ((c : Change) → p c ≡ true → q c ≡ false)
    → all p l ≡ true
    → filter q l ≡ []
filter_drops p q [] h a = refl
filter_drops p q (c ∷ l) h a = ground (arith, h c, filter_drops p q l h)

filter-append :
    (p : Change → Bool) (l m : List Change) → filter p (l ++ m) ≡ filter p l ++ filter p m
filter-append p [] m = refl
filter-append p (c ∷ l) m = ground (arith, filter-append p l m)

last_level-last_only : (l : List Change) → last_level (last_only l) ≡ last_level l
last_level-last_only [] = refl
last_level-last_only (c ∷ []) = refl
last_level-last_only (c ∷ d ∷ l) = last_level-last_only (d ∷ l)

module _ (start end : Time) (history : List Change) (n : start < end) where
  abbrev befores : List Change
  befores = filter (early start) history

  abbrev durings : List Change
  durings = filter (within start end) history

  abbrev afters : List Change
  afters = filter (late end) history

  select-early : filter (early start) (select_changes start end history) ≡ last_only befores
  unfolding select_changes
  select-early = simp (
    filter-append,
    filter_keeps (early start) (early start) (last_only befores) (λ c h. h)
        (all-last_only (early start) befores (all-filter (early start) history)),
    filter_drops (within start end) (early start) durings (λ c h. ground arith)
        (all-filter (within start end) history),
    filter_drops (late end) (early start) (first_only afters) (λ c h. ground arith)
        (all-first_only (late end) afters (all-filter (late end) history)),
    append-nil,
  )

  select-within : filter (within start end) (select_changes start end history) ≡ durings
  unfolding select_changes
  select-within = simp (
    filter-append,
    filter_drops (early start) (within start end) (last_only befores) (λ c h. ground arith)
        (all-last_only (early start) befores (all-filter (early start) history)),
    filter_keeps (within start end) (within start end) durings (λ c h. h)
        (all-filter (within start end) history),
    filter_drops (late end) (within start end) (first_only afters) (λ c h. ground arith)
        (all-first_only (late end) afters (all-filter (late end) history)),
    append-nil,
  )

  select-late : filter (late end) (select_changes start end history) ≡ first_only afters
  unfolding select_changes
  select-late = simp (
    filter-append,
    filter_drops (early start) (late end) (last_only befores) (λ c h. ground arith)
        (all-last_only (early start) befores (all-filter (early start) history)),
    filter_drops (within start end) (late end) durings (λ c h. ground arith)
        (all-filter (within start end) history),
    filter_keeps (late end) (late end) (first_only afters) (λ c h. h)
        (all-first_only (late end) afters (all-filter (late end) history)),
  )

critical_from_cut :
    (start end : Time) (seen : Option Time) (before during after : List Change)
    → critical_from start end seen (last_only before) during (first_only after)
      ≡ critical_from start end seen before during after
unfolding critical_from
critical_from_cut start end seen before [] [] = rw (last_level-last_only before, critical_from)
critical_from_cut start end seen before [] (c ∷ after) =
    rw (last_level-last_only before, critical_from)
critical_from_cut start end seen before (c ∷ during) after =
    rw (last_level-last_only before, critical_from)

-- In a period that is not empty, reading only the changes within it, the last one before and the
-- first one after gives the same intervals as the site's whole history.
pub critical_intervals-select_changes :
    (start end : Time) (seen : Option Time) (history : List Change)
    → start < end
    → critical_intervals start end seen (select_changes start end history)
      ≡ critical_intervals start end seen history
unfolding critical_intervals
critical_intervals-select_changes start end seen history n = simp (
  select-early start end history n,
  select-within start end history n,
  select-late start end history n,
  critical_from_cut,
)
