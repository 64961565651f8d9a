-- ===== src/Notify/LevelStore.antt =====
-- What `record_site` of LevelChanges stores: the level of the site, and no other level.
use nautobot_maps.Prelude.{
  ◌≡◌, refl, sym, Bool, true, Option, none, some, String, str_eq, eq_iff, arith, if◌then◌else◌,
  Dict, lookup, insert, lookup-insert,
}
use nautobot_maps.Level.{Level, level_eq}
use nautobot_maps.Availability.Interval.{Time}
use nautobot_maps.Notify.Rules.{Settings}
use nautobot_maps.Notify.LevelChanges.{
  LevelRow, Tables, Build, keys_of, is_edit, log_change, set_site_level_keys, record_known,
  record_site, set_row_keys,
}

pub level_eq_sound : (a b : Level) → level_eq a b ≡ true → a ≡ b
level_eq_sound a b h = ground arith

abbrev pub level_of_row : Option LevelRow → Option Level
level_of_row none = none
level_of_row (some r) = some r.level

-- The level that is stored for a site.
abbrev pub stored_level : String → Tables → Option Level
stored_level site_id t = level_of_row (lookup site_id t.levels)

level-insert :
    (s j : String) (r : LevelRow) (d : Dict LevelRow)
    → level_of_row (lookup j (insert s r d))
      ≡ (if str_eq j s then some r.level else level_of_row (lookup j d))
level-insert s j r d = rw lookup-insert (ground arith)

level-set_row_keys :
    (s j : String) (c w : Option String) (o : Option LevelRow) (d : Dict LevelRow)
    → lookup s d ≡ o
    → level_of_row (lookup j (set_row_keys s c w o d)) ≡ level_of_row (lookup j d)
level-set_row_keys s j c w none d e = refl
level-set_row_keys s j c w (some r) d e =
    ground (arith, level-insert s j (record r { criticality_key = c; down_key = w }) d, eq_iff j s)

stored-set_site_level_keys :
    (s j : String) (c w : Option String) (t : Tables)
    → stored_level j (set_site_level_keys s c w t) ≡ stored_level j t
unfolding set_site_level_keys
stored-set_site_level_keys s j c w t = level-set_row_keys s j c w (lookup s t.levels) t.levels refl

stored-log_change :
    (cfg : Settings) (b : Build) (at : Time) (s j : String) (level : Level) (before : LevelRow)
    (edited : Bool) (t : Tables)
    → stored_level j (log_change cfg b at s level before edited t)
      ≡ (if str_eq j s then some level else stored_level j t)
unfolding log_change
stored-log_change cfg b at s j level before edited t =
    level-insert s j (record before { level = level }) t.levels

-- Recording a site stores its level and leaves every other site's as it is.
stored-record_known :
    (cfg : Settings) (b : Build) (at : Time) (s j : String) (level : Level) (before : LevelRow)
    (t : Tables)
    → stored_level s t ≡ some before.level
    → stored_level j (record_known cfg b at s level before t).0
      ≡ (if str_eq j s then some level else stored_level j t)
unfolding record_known
stored-record_known cfg b at s j level before t e = ground (
  arith,
  stored-set_site_level_keys s j (keys_of s b.level_keys).0 (keys_of s b.level_keys).1 t,
  stored-set_site_level_keys s j (keys_of s b.level_keys).0 (keys_of s b.level_keys).1 (
      log_change cfg b at s level before
        (is_edit before (keys_of s b.level_keys).0 (keys_of s b.level_keys).1) t),
  stored-log_change cfg b at s j level before
      (is_edit before (keys_of s b.level_keys).0 (keys_of s b.level_keys).1) t,
  level_eq_sound before.level level,
  eq_iff j s,
)

pub stored-record_site :
    (cfg : Settings) (b : Build) (at : Time) (s j : String) (level : Level) (o : Option LevelRow)
    (t : Tables)
    → level_of_row o ≡ stored_level s t
    → stored_level j (record_site cfg b at s level o t).0
      ≡ (if str_eq j s then some level else stored_level j t)
unfolding record_site
stored-record_site cfg b at s j level none t e =
    level-insert s j
      (record {
        level = level;
        criticality_key = (keys_of s b.level_keys).0;
        down_key = (keys_of s b.level_keys).1;
      })
      t.levels
stored-record_site cfg b at s j level (some before) t e =
    stored-record_known cfg b at s j level before t (sym e)
