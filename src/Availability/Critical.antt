-- ===== src/Availability/Critical.antt =====
-- `read_critical` of availability_service.py for one site: when it was at Critical in the period.
use nautobot_maps.Prelude.{
  min, max, ◌&&◌, List, [], ◌∷◌, ◌++◌, Option, none, some, ltb, leb, filter, if◌then◌else◌,
}
use nautobot_maps.Level.{Level, critical, level_eq}
use nautobot_maps.Availability.Interval.{Time, Interval}

-- A row of `site_level_changes`, with its time parsed.
pub record Change : Type 0 where
  pub from_level : Level
  pub to_level : Level
  pub at : Time

-- `before[-1]["to_level"]`: of the last change, if there is one.
abbrev pub last_level : List Change → Option Level
last_level [] = none
last_level (c ∷ []) = some c.to_level
last_level (c ∷ d ∷ l) = last_level (d ∷ l)

-- The loop over `during`: `level` holds since `since`.
unfoldable pub critical_loop : Time → Level → Time → List Change → List Interval
critical_loop end level since [] = if level_eq level critical then (since, end) ∷ [] else []
critical_loop end level since (c ∷ during) =
    let rest = critical_loop end c.to_level c.at during in
    if level_eq level critical then (since, c.at) ∷ rest else rest

-- The level at the start and since when it is known, without an earlier change: the one that the
-- first change came from, not before the site was first seen.
unfoldable pub initial_level : Time → Time → Option Time → List Change → List Change → Level × Time
initial_level start end first_seen [] [] = (Level.unset, start)
initial_level start end first_seen (c ∷ during) after = (
  c.from_level,
  elim first_seen [ none ↦ start | some seen ↦ if ltb start seen then min seen end else start ],
)
initial_level start end first_seen [] (c ∷ after) = (
  c.from_level,
  elim first_seen [ none ↦ start | some seen ↦ if ltb start seen then min seen end else start ],
)

-- The intervals of one site by its changes before, during and after the period.
unfoldable pub critical_from :
    Time → Time → Option Time → List Change → List Change → List Change → List Interval
unfolding critical_loop initial_level
critical_from start end first_seen before during after = elim (last_level before) [
  | some level ↦ critical_loop end level start during
  | none ↦
      let (level, since) = initial_level start end first_seen during after in
      critical_loop end level since during
]

-- The changes of one site, oldest first.
unfoldable pub critical_intervals : Time → Time → Option Time → List Change → List Interval
critical_intervals start end first_seen changes =
    critical_from start end first_seen (filter (λ c. leb c.at start) changes)
      (filter (λ c. ltb start c.at && ltb c.at end) changes) (filter (λ c. leb end c.at) changes)

-- A site that never changed its level is at Critical since it was first seen (`updated_at` for
-- one from before that was kept).
unfoldable pub unchanged_intervals : Time → Time → Option Time → Option Time → Level → List Interval
unchanged_intervals start end first_seen updated_at level =
    let known : Time = elim first_seen [
      | some t ↦ t
      | none ↦ elim updated_at [ some t ↦ t | none ↦ start ]
    ] in
    let seen = max known start in
    if level_eq level critical && ltb seen end then (seen, end) ∷ [] else []

-- What the query reads of one site's history: the changes in the period, the last one before it and
-- the first one after it.
abbrev pub last_only : List Change → List Change
last_only [] = []
last_only (c ∷ []) = c ∷ []
last_only (c ∷ d ∷ l) = last_only (d ∷ l)

abbrev pub first_only : List Change → List Change
first_only [] = []
first_only (c ∷ l) = c ∷ []

unfoldable pub select_changes : Time → Time → List Change → List Change
select_changes start end history =
    last_only (filter (λ c. leb c.at start) history)
    ++ (filter (λ c. ltb start c.at && ltb c.at end) history
        ++ first_only (filter (λ c. leb end c.at) history))
