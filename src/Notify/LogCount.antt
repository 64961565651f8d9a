-- ===== src/Notify/LogCount.antt =====
-- What `record_site_level_changes` adds to the log, and the number that it answers.
use nautobot_maps.Prelude.{
  ◌+◌, ◌≡◌, refl, ap, sym, List, [], ◌∷◌, ◌++◌, Option, none, some, String, arith, if◌then◌else◌,
  Dict, lookup, length, length-append,
}
use mathlib.Core.List.{append-nil}
use nautobot_maps.Level.{Level, level_eq}
use nautobot_maps.Availability.Interval.{Time}
use nautobot_maps.Notify.Rules.{Settings}
use nautobot_maps.Notify.LevelChanges.{
  LevelRow, Logged, Tables, Build, log_change, set_site_level_keys, record_known, record_site,
  record_sites, record_site_level_changes,
}

-- What recording a site adds to the log: the change of its level, if it changed.
unfoldable pub logged_for : Time → String → Level → Option LevelRow → List Logged
logged_for at s level none = []
logged_for at s level (some before) =
    if level_eq before.level level
    then []
    else record { site_id = s; from_level = before.level; to_level = level; changed_at = at } ∷ []

pub log-record_site :
    (cfg : Settings) (b : Build) (at : Time) (s : String) (level : Level) (o : Option LevelRow)
    (t : Tables)
    → ((record_site cfg b at s level o t).0.log ≡ t.log ++ logged_for at s level o)
      × ((record_site cfg b at s level o t).1 ≡ length (logged_for at s level o))
unfolding record_site record_known log_change set_site_level_keys logged_for
log-record_site cfg b at s level none t = (sym (append-nil t.log), refl)
log-record_site cfg b at s level (some before) t = ground (arith, append-nil t.log)

log-record_sites :
    (cfg : Settings) (b : Build) (at : Time) (previous : Dict LevelRow)
    (levels : List (String × Level)) (t : Tables)
    → length (record_sites cfg b at previous levels t).0.log
      ≡ length t.log + (record_sites cfg b at previous levels t).1
unfolding record_sites
log-record_sites cfg b at previous [] t = omega arith
log-record_sites cfg b at previous ((s, level) ∷ levels) t =
    let (grown, counted) = log-record_site cfg b at s level (lookup s previous) t in
    omega (
      arith,
      log-record_sites cfg b at previous levels
          (record_site cfg b at s level (lookup s previous) t).0,
      ap length grown,
      counted,
      length-append t.log (logged_for at s level (lookup s previous)),
    )

-- The number that `record_site_level_changes` answers is the number of entries that it has added to
-- the log.
pub record_site_level_changes-count :
    (cfg : Settings) (b : Build) (at : Time) (t : Tables)
    → length (record_site_level_changes cfg b at t).0.log
      ≡ length t.log + (record_site_level_changes cfg b at t).1
unfolding record_site_level_changes
record_site_level_changes-count cfg b at t = log-record_sites cfg b at t.levels b.levels t
