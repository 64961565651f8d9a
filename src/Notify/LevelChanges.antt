-- ===== src/Notify/LevelChanges.antt =====
-- `record_site_level_changes` of api/app/services/alerts_service.py, with the tables that it writes:
-- each site's stored level, the log of changes, and the outbox.
use nautobot_maps.Prelude.{
  ℕ, ◌+◌, Bool, true, false, not, ◌&&◌, List, [], ◌∷◌, ◌++◌, Option, none, some, String, str_eq,
  if◌then◌else◌, Dict, lookup, insert, any,
}
use nautobot_maps.Level.{Level, level_eq}
use nautobot_maps.Text.{Text}
use nautobot_maps.Availability.Interval.{Time}
use nautobot_maps.Notify.Rules.{Settings}
use nautobot_maps.Notify.Outbox.{Outbox, enqueue_change}

-- A row of `site_alert_levels`.
pub record LevelRow : Type 0 where
  pub level : Level
  pub criticality_key : Option String
  pub down_key : Option String

-- A row of `site_level_changes`.
pub record Logged : Type 0 where
  pub site_id : String
  pub from_level : Level
  pub to_level : Level
  pub changed_at : Time

pub record Tables : Type 0 where
  pub levels : Dict LevelRow
  pub log : List Logged
  pub box : Outbox

-- What a message takes from the site's board row.
pub record BoardSite : Type 0 where
  pub tier : Text
  pub tenants : List Text

-- What a build hands over: each site's level, by site id in order, the board rows, the sites whose
-- recovery is quiet, and the fingerprints.
pub record Build : Type 0 where
  pub levels : List (String × Level)
  pub sites : Dict BoardSite
  pub quiet_sites : List String
  pub level_keys : Dict (String × String)

abbrev pub key_eq : Option String → Option String → Bool
key_eq none none = true
key_eq (some a) (some b) = str_eq a b
key_eq _ _ = false

-- `(level_keys or {}).get(site_id, (None, None))`
abbrev pub keys_of : String → Dict (String × String) → Option String × Option String
keys_of site_id d = elim (lookup site_id d) [ none ↦ (none, none) | some (c, w) ↦ (some c, some w) ]

abbrev pub is_known : Option String → Bool
is_known none = false
is_known (some k) = true

-- Only the criticality changed, the same devices down: an edit, not news.
unfoldable pub is_edit : LevelRow → Option String → Option String → Bool
is_edit before criticality_key down_key =
    is_known criticality_key
    && is_known before.criticality_key
    && not (key_eq before.criticality_key criticality_key)
    && key_eq before.down_key down_key

abbrev pub no_site : BoardSite
no_site = record { tier = []; tenants = [] }

abbrev pub board_site : String → Dict BoardSite → BoardSite
board_site site_id sites = elim (lookup site_id sites) [ none ↦ no_site | some s ↦ s ]

-- `record_site_level_change` of the repository, and the message unless the change is an edit.
unfoldable pub log_change :
    Settings → Build → Time → String → Level → LevelRow → Bool → Tables → Tables
log_change cfg b at site_id level before edited t = record {
  levels = insert site_id (record before { level = level }) t.levels;
  log =
      t.log
      ++ record { site_id = site_id; from_level = before.level; to_level = level; changed_at = at }
        ∷ [];
  box =
      if edited
      then t.box
      else (enqueue_change cfg t.box site_id before.level level (board_site site_id b.sites).tier
          (board_site site_id b.sites).tenants at (any (str_eq site_id) b.quiet_sites)).0;
}

abbrev pub set_row_keys :
    String → Option String → Option String → Option LevelRow → Dict LevelRow → Dict LevelRow
set_row_keys site_id criticality_key down_key none d = d
set_row_keys site_id criticality_key down_key (some row) d =
    insert site_id (record row { criticality_key = criticality_key; down_key = down_key }) d

-- `set_site_level_keys`
unfoldable pub set_site_level_keys : String → Option String → Option String → Tables → Tables
set_site_level_keys site_id criticality_key down_key t = record t {
  levels = set_row_keys site_id criticality_key down_key (lookup site_id t.levels) t.levels;
}

-- One site that has a stored level, and the number of changes logged.
unfoldable pub record_known :
    Settings → Build → Time → String → Level → LevelRow → Tables → Tables × ℕ
record_known cfg b at site_id level before t =
    let (criticality_key, down_key) = keys_of site_id b.level_keys in
    let same_level = level_eq before.level level in
    let keys_changed =
      is_known criticality_key
      && not (key_eq before.criticality_key criticality_key && key_eq before.down_key down_key) in
    let logged =
      if same_level
      then t
      else log_change cfg b at site_id level before (is_edit before criticality_key down_key) t in
    (
      if keys_changed then set_site_level_keys site_id criticality_key down_key logged else logged,
      if same_level then 0 else 1,
    )

-- A site seen for the first time only gets its level stored (`insert_site_level`).
unfoldable pub record_site :
    Settings → Build → Time → String → Level → Option LevelRow → Tables → Tables × ℕ
record_site cfg b at site_id level none t =
    let (criticality_key, down_key) = keys_of site_id b.level_keys in
    (
      record t {
        levels =
            insert site_id
              (record { level = level; criticality_key = criticality_key; down_key = down_key })
              t.levels;
      },
      0,
    )
record_site cfg b at site_id level (some before) t = record_known cfg b at site_id level before t

-- The loop over the sites; `previous` is what was locked before it.
unfoldable pub record_sites :
    Settings → Build → Time → Dict LevelRow → List (String × Level) → Tables → Tables × ℕ
record_sites cfg b at previous [] t = (t, 0)
record_sites cfg b at previous ((site_id, level) ∷ levels) t =
    let (t', n) = record_site cfg b at site_id level (lookup site_id previous) t in
    let (last, count) = record_sites cfg b at previous levels t' in (last, n + count)

unfoldable pub record_site_level_changes : Settings → Build → Time → Tables → Tables × ℕ
record_site_level_changes cfg b at t = record_sites cfg b at t.levels b.levels t
