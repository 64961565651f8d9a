-- ===== src/Incidents/Lifecycle.antt =====
-- `resolve_open_alert_instances_for_site` and `upsert_alert_lifecycle_for_site`, in the transaction
-- that keeps either all of a call's writes or none.
use nautobot_maps.Prelude.{
  ℕ, ◌-◌, ◌/◌, Bool, true, not, ◌&&◌, List, [], ◌∷◌, map, Option, none, some, String, str_eq, leb,
  if◌then◌else◌, any, Dict, lookup,
}
use nautobot_maps.Level.{Level, unset, ok, no_data, level_eq}
use nautobot_maps.Text.{stripped, lower, strip, is_in}
use nautobot_maps.Availability.Interval.{Time, microseconds}
use nautobot_maps.Alerts.Device.{down_statuses}
use nautobot_maps.Incidents.Since.{BoardDevice, down_since}
use nautobot_maps.Incidents.Store.{
  Incident, Event, EventKind, opened, updated, resolved, Store, build_alert_key, latest_open_alert,
  insert_alert_event, open_alert_instance, refresh_open_alert, open_alerts_of_site,
  resolve_alert_instance,
}

-- When a recovered incident ended: when its device came up, if that is known and not before it began.
abbrev pub end_of : Option Time → Time → Time → Time
end_of none began checked_at = checked_at
end_of (some up) began checked_at = if leb began up then up else checked_at

-- One round of the loop.
unfoldable pub resolve_one : List String → Time → Dict Time → Incident → Store → Store
unfolding resolve_alert_instance insert_alert_event
resolve_one open_keys checked_at came_up r s =
    let at = end_of (lookup r.device_id came_up) r.down_started_at checked_at in
    let (done, after) =
      resolve_alert_instance r.id at ((at - r.down_started_at) / microseconds) s in
    if any (str_eq r.key) open_keys
    then s
    else if done
    then insert_alert_event
        (record { incident_id = r.id; kind = resolved; at = at; level = ok; reason = "Recovered" })
        after
    else s

unfoldable pub resolve_each : List String → Time → Dict Time → List Incident → Store → Store
resolve_each open_keys checked_at came_up [] s = s
resolve_each open_keys checked_at came_up (r ∷ rows) s =
    resolve_each open_keys checked_at came_up rows (resolve_one open_keys checked_at came_up r s)

unfoldable pub resolve_open_alert_instances_for_site :
    String → List String → Time → Dict Time → Store → Store
unfolding open_alerts_of_site
resolve_open_alert_instances_for_site site_id open_keys checked_at came_up s =
    resolve_each open_keys checked_at came_up (open_alerts_of_site s site_id) s

-- What one build says of a site: its alert, and what it knows of single devices.
pub record Finding : Type 0 where
  pub site_id : String
  pub site_name : String
  pub level : Level
  pub reason : String
  pub checked_at : Time
  pub frozen_device_ids : List String
  pub resolved_at_by_device : Dict Time
  pub probable_causes : Dict String
  pub core_device_ids : List String

-- `(alert.get("level") or "no_data").lower()`
abbrev pub level_of_alert : Level → Level
level_of_alert unset = no_data
level_of_alert level = level

-- `d.get(k, "")`
abbrev pub text_or_empty : Option String → String
text_or_empty none = ""
text_or_empty (some s) = s

-- The row that a down device's incident begins with, or is brought up to date by.
unfoldable pub new_incident : (String → String) → Finding → BoardDevice → Incident
unfolding build_alert_key
new_incident digest f d =
    let device_id = stripped d.id in
    record {
      id = 0;
      key = build_alert_key digest (stripped f.site_id) device_id;
      site_id = stripped f.site_id;
      site_name = f.site_name;
      device_id = device_id;
      device_name = d.name;
      level = level_of_alert f.level;
      reason = f.reason;
      is_open = true;
      down_started_at = down_since d f.checked_at;
      last_seen_down_at = f.checked_at;
      resolved_at = none;
      total_downtime_seconds = 0;
      probable_cause = text_or_empty (lookup device_id f.probable_causes);
      is_core = any (str_eq device_id) f.core_device_ids;
      access_point = d.wireless;
      acknowledged_at = none;
      acknowledged_by = "";
      ack_note = "";
    }

abbrev pub event_of : ℕ → EventKind → Time → Incident → Event
event_of id kind at new = record {
  incident_id = id;
  kind = kind;
  at = at;
  level = new.level;
  reason = new.reason;
}

-- The incident that is open is brought up to date, with an event if its level or reason changed.
unfoldable pub refresh : Time → Incident → Incident → Store → Store
unfolding refresh_open_alert insert_alert_event
refresh at new current s =
    let after = refresh_open_alert current.id new s in
    if level_eq current.level new.level && str_eq current.reason new.reason
    then after
    else insert_alert_event (event_of current.id updated at new) after

abbrev pub refresh_if_open : Time → Incident → Option Incident → Store → Store
refresh_if_open at new none s = s
refresh_if_open at new (some current) s = refresh at new current s

-- After the `INSERT`: opened, or by another build meanwhile.
abbrev pub after_insert : Time → Incident → Option ℕ × Store → Store
after_insert at new (some id, s) = insert_alert_event (event_of id opened at new) s
after_insert at new (none, s) = refresh_if_open at new (latest_open_alert s new.key) s

abbrev pub open_or_refresh : Time → Incident → Option Incident → Store → Store
open_or_refresh at new none s = after_insert at new (open_alert_instance new s)
open_or_refresh at new (some current) s = refresh at new current s

unfoldable pub record_down : Time → Incident → Store → Store
unfolding latest_open_alert open_alert_instance insert_alert_event refresh
record_down at new s = open_or_refresh at new (latest_open_alert s new.key) s

-- Down, and with an id.
unfoldable pub counts_as_down : BoardDevice → Bool
unfolding lower strip
counts_as_down d = is_in (strip (lower d.status)) down_statuses && not (str_eq (stripped d.id) "")

-- The loop over the devices, and the keys that it adds to `open_alert_keys`.
unfoldable pub record_devices :
    (String → String) → Finding → List BoardDevice → List String × Store → List String × Store
record_devices digest f [] state = state
record_devices digest f (d ∷ devices) (keys, s) =
    let new = new_incident digest f d in
    record_devices digest f devices
      (if counts_as_down d then (new.key ∷ keys, record_down f.checked_at new s) else (keys, s))

unfoldable pub frozen_keys : (String → String) → Finding → List String
frozen_keys digest f = map (build_alert_key digest (stripped f.site_id)) f.frozen_device_ids

unfoldable pub upsert_alert_lifecycle_for_site :
    (String → String) → Finding → List BoardDevice → Store → Store
upsert_alert_lifecycle_for_site digest f devices s =
    let (keys, after) = record_devices digest f devices (frozen_keys digest f, s) in
    if str_eq (stripped f.site_id) ""
    then s
    else resolve_open_alert_instances_for_site (stripped f.site_id) keys f.checked_at
        f.resolved_at_by_device after
