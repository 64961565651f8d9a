-- ===== src/Incidents/Store.antt =====
-- The tables `alert_instances` and `alert_events`, with what api/app/repositories/board_repository.py
-- does on them. Rows stand in the order of their ids. The digest of a key is a parameter.
use nautobot_maps.Prelude.{
  ℕ, ◌+◌, min, Bool, false, ◌&&◌, List, [], ◌∷◌, ◌++◌, map, Option, none, some, String, str_eq, leb,
  ◌==◌, if◌then◌else◌, filter, any,
}
use nautobot_maps.Level.{Level}
use nautobot_maps.Text.{stripped}
use nautobot_maps.Availability.Interval.{Time}
use Prim.Native.String.{◌++◌ as ◌<>◌}

pub record Incident : Type 0 where
  pub id : ℕ
  pub key : String
  pub site_id : String
  pub site_name : String
  pub device_id : String
  pub device_name : String
  pub level : Level
  pub reason : String
  pub is_open : Bool
  pub down_started_at : Time
  pub last_seen_down_at : Time
  pub resolved_at : Option Time
  pub total_downtime_seconds : ℕ
  pub probable_cause : String
  pub is_core : Bool
  pub access_point : Bool
  pub acknowledged_at : Option Time
  pub acknowledged_by : String
  pub ack_note : String

pub data EventKind : Type 0 where
  opened updated resolved acknowledged unacknowledged : EventKind

-- An event, less its snapshot.
pub record Event : Type 0 where
  pub incident_id : ℕ
  pub kind : EventKind
  pub at : Time
  pub level : Level
  pub reason : String

pub record Store : Type 0 where
  pub incidents : List Incident
  pub events : List Event
  pub next_id : ℕ

-- `build_alert_key`
unfoldable pub build_alert_key : (String → String) → String → String → String
build_alert_key digest site_id device_id = digest ((stripped site_id <> "::") <> stripped device_id)

-- Open, with that key.
unfoldable pub is_open_key : String → Incident → Bool
is_open_key key r = r.is_open && str_eq r.key key

-- `ORDER BY id DESC LIMIT 1`
abbrev pub last_of_key : String → Option Incident → List Incident → Option Incident
last_of_key key found [] = found
last_of_key key found (r ∷ rows) =
    last_of_key key (if is_open_key key r then some r else found) rows

unfoldable pub latest_open_alert : Store → String → Option Incident
latest_open_alert s key = last_of_key key none s.incidents

unfoldable pub insert_alert_event : Event → Store → Store
insert_alert_event e s = record s { events = s.events ++ (e ∷ []) }

-- `new` has everything but the id. None when one is open with the key.
unfoldable pub open_alert_instance : Incident → Store → Option ℕ × Store
unfolding is_open_key
open_alert_instance new s = if any (is_open_key new.key) s.incidents then (none, s) else (
  some s.next_id,
  record s {
    incidents = s.incidents ++ (record new { id = s.next_id } ∷ []);
    next_id = s.next_id + 1;
  },
)

-- An `UPDATE` of the rows with that id.
abbrev pub update_row : ℕ → (Incident → Incident) → Store → Store
update_row id f s = record s { incidents = map (λ r. if r.id == id then f r else r) s.incidents }

-- The columns that `refresh_open_alert` sets.
abbrev pub refreshed : Incident → Incident → Incident
refreshed new r = record r {
  site_name = new.site_name;
  device_name = new.device_name;
  level = new.level;
  reason = new.reason;
  last_seen_down_at = new.last_seen_down_at;
  down_started_at = min r.down_started_at new.down_started_at;
  probable_cause = new.probable_cause;
  is_core = new.is_core;
}

unfoldable pub refresh_open_alert : ℕ → Incident → Store → Store
refresh_open_alert id new = update_row id (refreshed new)

unfoldable pub open_alerts_of_site : Store → String → List Incident
open_alerts_of_site s site_id = filter (λ r. str_eq r.site_id site_id && r.is_open) s.incidents

abbrev pub resolved_row : Time → ℕ → Incident → Incident
resolved_row at seconds r = record r {
  is_open = false;
  resolved_at = some at;
  total_downtime_seconds = r.total_downtime_seconds + seconds;
}

-- The `WHERE` of `resolve_alert_instance`.
unfoldable pub can_resolve : ℕ → Time → Incident → Bool
can_resolve id at r = r.id == id && r.is_open && leb r.down_started_at at

unfoldable pub resolve_alert_instance : ℕ → Time → ℕ → Store → Bool × Store
unfolding can_resolve
resolve_alert_instance id at seconds s = (
  any (can_resolve id at) s.incidents,
  record s {
    incidents = map (λ r. if can_resolve id at r then resolved_row at seconds r else r) s.incidents;
  },
)

abbrev pub acknowledged_row : Time → String → String → Incident → Incident
acknowledged_row at by note r = record r {
  acknowledged_at = some at;
  acknowledged_by = by;
  ack_note = note;
}

unfoldable pub set_acknowledgement : ℕ → Time → String → String → Store → Store
set_acknowledgement id at by note = update_row id (acknowledged_row at by note)

abbrev pub cleared_row : Incident → Incident
cleared_row r = record r { acknowledged_at = none; acknowledged_by = ""; ack_note = "" }

unfoldable pub clear_acknowledgement : ℕ → Store → Store
clear_acknowledgement id = update_row id cleared_row
