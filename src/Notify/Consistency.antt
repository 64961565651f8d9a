-- ===== src/Notify/Consistency.antt =====
-- The stored levels and the log of changes agree, from one build to the next.
use nautobot_maps.Prelude.{
  ◌≡◌, refl, ap, ◌∙◌, sym, Bool, true, false, not, ◌&&◌, List, [], ◌∷◌, ◌++◌, Option, none, some,
  String, str_eq, eq_iff, arith, if◌then◌else◌, Dict, lookup, contains,
}
use nautobot_maps.Level.{Level, level_eq}
use nautobot_maps.Availability.Interval.{Time}
use nautobot_maps.Notify.Rules.{Settings}
use nautobot_maps.Notify.LevelChanges.{
  LevelRow, Logged, Tables, Build, record_site, record_sites, record_site_level_changes,
}
use nautobot_maps.Notify.LevelStore.{level_eq_sound, level_of_row, stored_level, stored-record_site}
use nautobot_maps.Notify.LogCount.{logged_for, log-record_site}

-- The level that the log gives a site last.
unfoldable pub last_logged : String → Option Level → List Logged → Option Level
last_logged j found [] = found
last_logged j found (e ∷ l) =
    last_logged j (if str_eq e.site_id j then some e.to_level else found) l

last_logged-append :
    (j : String) (found : Option Level) (a b : List Logged)
    → last_logged j found (a ++ b) ≡ last_logged j (last_logged j found a) b
unfolding last_logged
last_logged-append j found [] b = refl
last_logged-append j found (e ∷ a) b =
    last_logged-append j (if str_eq e.site_id j then some e.to_level else found) a b

-- The log's last level of a site is the one that is stored for it.
pub record IsConsistent (t : Tables) : Type 0 where
  pub at_site :
      (j : String) (l : Level) → last_logged j none t.log ≡ some l → stored_level j t ≡ some l

eq_comm : (s j : String) → str_eq s j ≡ str_eq j s
eq_comm s j = ground (arith, eq_iff j s, eq_iff s j)

-- One entry of the log, for the site `j` or not, when the level is the same or not.
entry-stored :
    (at_site same : Bool) (before level l : Level) (found stored : Option Level)
    → (found ≡ some l → stored ≡ some l)
    → (at_site ≡ true → stored ≡ some before)
    → (same ≡ true → before ≡ level)
    → (if same then found else if at_site then some level else found) ≡ some l
    → (if at_site then some level else stored) ≡ some l
entry-stored true true before level l found stored h e q k =
    ap some (sym (q refl)) ∙ sym (e refl) ∙ h k
entry-stored true false before level l found stored h e q k = k
entry-stored false true before level l found stored h e q k = h k
entry-stored false false before level l found stored h e q k = h k

if_entry :
    (b : Bool) (j : String) (found : Option Level) (e : Logged)
    → last_logged j found (if b then [] else e ∷ [])
      ≡ (if b then found else if str_eq e.site_id j then some e.to_level else found)
unfolding last_logged
if_entry true j found e = refl
if_entry false j found e = refl

entry-none :
    (at_site : Bool) (level l : Level) (stored : Option Level)
    → stored ≡ some l
    → (at_site ≡ true → stored ≡ none)
    → (if at_site then some level else stored) ≡ some l
entry-none true level l stored k e = ground arith
entry-none false level l stored k e = k

last_logged-logged_for :
    (at : Time) (s j : String) (level : Level) (found : Option Level) (before : LevelRow)
    → last_logged j found (logged_for at s level (some before))
      ≡ (if level_eq before.level level then found else if str_eq j s then some level else found)
unfolding logged_for
last_logged-logged_for at s j level found before =
    if_entry (level_eq before.level level) j found
      (record { site_id = s; from_level = before.level; to_level = level; changed_at = at })
    ∙ ap (λ b. if level_eq before.level level then found else if b then some level else found)
        (eq_comm s j)

-- Where the log's last level is the stored one, it is so after a site is recorded.
logged-stored :
    (at : Time) (s j : String) (level l : Level) (found : Option Level) (o : Option LevelRow)
    (t : Tables)
    → (found ≡ some l → stored_level j t ≡ some l)
    → level_of_row o ≡ stored_level s t
    → last_logged j found (logged_for at s level o) ≡ some l
    → (if str_eq j s then some level else stored_level j t) ≡ some l
unfolding last_logged logged_for
logged-stored at s j level l found none t h e k =
    entry-none (str_eq j s) level l (stored_level j t) (h k)
      (λ q. ap (λ i. stored_level i t) ((eq_iff j s).0 q) ∙ sym e)
logged-stored at s j level l found (some before) t h e k =
    entry-stored (str_eq j s) (level_eq before.level level) before.level level l found
      (stored_level j t) h (λ q. ap (λ i. stored_level i t) ((eq_iff j s).0 q) ∙ sym e)
      (level_eq_sound before.level level)
      (sym (last_logged-logged_for at s j level found before) ∙ k)

record_site-IsConsistent :
    (cfg : Settings) (b : Build) (at : Time) (s : String) (level : Level) (o : Option LevelRow)
    (t : Tables)
    → level_of_row o ≡ stored_level s t
    → IsConsistent t
    → IsConsistent (record_site cfg b at s level o t).0
record_site-IsConsistent cfg b at s level o t e h = record {
  at_site = λ j l last.
      stored-record_site cfg b at s j level o t e
      ∙ logged-stored at s j level l (last_logged j none t.log) o t (h.at_site j l) e (
          sym (last_logged-append j none t.log (logged_for at s level o))
          ∙ ap (last_logged j none) (sym (log-record_site cfg b at s level o t).0)
          ∙ last);
}

-- Each site stands in the list once.
abbrev pub are_distinct : List (String × Level) → Bool
are_distinct [] = true
are_distinct ((s, level) ∷ rest) = not (contains s rest) && are_distinct rest

-- The level that a list of levels gives a site, or else the given one.
abbrev pub level_or : Option Level → Option Level → Option Level
level_or found none = found
level_or found (some l) = some l

level_or-at :
    (at_site : Bool) (level : Level) (stored later : Option Level)
    → (at_site ≡ true → later ≡ none)
    → level_or (if at_site then some level else stored) later
      ≡ level_or stored (if at_site then some level else later)
level_or-at true level stored later e = ap (level_or (some level)) (e refl)
level_or-at false level stored later e = refl

not_at :
    (i s : String) (rest : List (String × Level))
    → contains s rest ≡ false
    → contains i rest ≡ true
    → str_eq i s ≡ false
not_at i s rest absent q = ground (arith, same_site)
  where
    same_site : str_eq i s ≡ true → contains i rest ≡ contains s rest
    same_site e = ap (λ x. contains x rest) ((eq_iff i s).0 e)

none_when_absent : (o : Option Level) → (elim o [ none ↦ false | some _ ↦ true ]) ≡ false → o ≡ none
none_when_absent o e = ground arith

lookup-absent :
    (j s : String) (rest : List (String × Level))
    → contains s rest ≡ false
    → str_eq j s ≡ true
    → lookup j rest ≡ none
lookup-absent j s rest absent e =
    ap (λ x. lookup x rest) ((eq_iff j s).0 e) ∙ none_when_absent (lookup s rest) absent

-- Recording another site leaves the stored level of the ones that follow.
unchanged :
    (cfg : Settings) (b : Build) (at : Time) (s i : String) (level : Level) (o : Option LevelRow)
    (rest : List (String × Level)) (t : Tables)
    → level_of_row o ≡ stored_level s t
    → contains s rest ≡ false
    → contains i rest ≡ true
    → stored_level i t ≡ stored_level i (record_site cfg b at s level o t).0
unchanged cfg b at s i level o rest t e absent q = sym (
    stored-record_site cfg b at s i level o t e
    ∙ ap (λ x. if x then some level else stored_level i t) (not_at i s rest absent q))

locked :
    (cfg : Settings) (b : Build) (at : Time) (previous : Dict LevelRow) (s : String) (level : Level)
    (rest : List (String × Level)) (t : Tables)
    → are_distinct ((s, level) ∷ rest) ≡ true
    → ((i : String)
        → contains i ((s, level) ∷ rest) ≡ true
        → level_of_row (lookup i previous) ≡ stored_level i t)
    → (i : String) → contains i rest ≡ true
    → level_of_row (lookup i previous)
      ≡ stored_level i (record_site cfg b at s level (lookup s previous) t).0
locked cfg b at previous s level rest t d same i q =
    same i (ground arith)
    ∙ unchanged cfg b at s i level (lookup s previous) rest t (same s (ground (arith, eq_iff s s)))
        (ground arith) q

record_sites-IsConsistent :
    (cfg : Settings) (b : Build) (at : Time) (previous : Dict LevelRow)
    (levels : List (String × Level)) (t : Tables)
    → are_distinct levels ≡ true
    → ((s : String)
        → contains s levels ≡ true
        → level_of_row (lookup s previous) ≡ stored_level s t)
    → IsConsistent t
    → IsConsistent (record_sites cfg b at previous levels t).0
unfolding record_sites
record_sites-IsConsistent cfg b at previous [] t d same h = h
record_sites-IsConsistent cfg b at previous ((s, level) ∷ levels) t d same h =
    record_sites-IsConsistent cfg b at previous levels
      (record_site cfg b at s level (lookup s previous) t).0 (ground arith)
      (locked cfg b at previous s level levels t d same)
      (record_site-IsConsistent cfg b at s level (lookup s previous) t
        (same s (ground (arith, eq_iff s s))) h)

stored-record_sites :
    (cfg : Settings) (b : Build) (at : Time) (previous : Dict LevelRow)
    (levels : List (String × Level)) (j : String) (t : Tables)
    → are_distinct levels ≡ true
    → ((s : String)
        → contains s levels ≡ true
        → level_of_row (lookup s previous) ≡ stored_level s t)
    → stored_level j (record_sites cfg b at previous levels t).0
      ≡ level_or (stored_level j t) (lookup j levels)
unfolding record_sites
stored-record_sites cfg b at previous [] j t d same = refl
stored-record_sites cfg b at previous ((s, level) ∷ levels) j t d same =
    stored-record_sites cfg b at previous levels j
      (record_site cfg b at s level (lookup s previous) t).0 (ground arith)
      (locked cfg b at previous s level levels t d same)
    ∙ ap (λ x. level_or x (lookup j levels))
        (stored-record_site cfg b at s j level (lookup s previous) t
          (same s (ground (arith, eq_iff s s))))
    ∙ level_or-at (str_eq j s) level (stored_level j t) (lookup j levels)
        (lookup-absent j s levels (ground arith))

-- When a build names each site once, and the log's last level of each site is the stored one, this
-- is so again after `record_site_level_changes`.
pub record_site_level_changes-IsConsistent :
    (cfg : Settings) (b : Build) (at : Time) (t : Tables)
    → are_distinct b.levels ≡ true
    → IsConsistent t
    → IsConsistent (record_site_level_changes cfg b at t).0
unfolding record_site_level_changes
record_site_level_changes-IsConsistent cfg b at t d h =
    record_sites-IsConsistent cfg b at t.levels b.levels t d (λ s q. refl) h

-- When a build names each site once, `record_site_level_changes` stores the build's level for each
-- site of the build and leaves the stored level of every other site as it was.
pub record_site_level_changes-levels :
    (cfg : Settings) (b : Build) (at : Time) (j : String) (t : Tables)
    → are_distinct b.levels ≡ true
    → stored_level j (record_site_level_changes cfg b at t).0
      ≡ level_or (stored_level j t) (lookup j b.levels)
unfolding record_site_level_changes
record_site_level_changes-levels cfg b at j t d =
    stored-record_sites cfg b at t.levels b.levels j t d (λ s q. refl)
