-- ===== src/Incidents/Acknowledge.antt =====
-- `acknowledge` of alerts_service.py, in its transaction. The note is the text sent, or "".
use mathlib.Core.List.{foldl}
use nautobot_maps.Prelude.{
  ℕ, Bool, true, false, not, ◌&&◌, List, [], ◌∷◌, ◌++◌, map, Option, none, some, String, str_eq,
  if◌then◌else◌, filter, Dict, lookup, insert, contains,
}
use nautobot_maps.Text.{stripped, first_characters}
use nautobot_maps.Availability.Interval.{Time}
use nautobot_maps.Planned.Request.{unique}
use nautobot_maps.Incidents.Store.{
  Incident, acknowledged, unacknowledged, Store, insert_alert_event, set_acknowledgement,
  clear_acknowledgement,
}

abbrev pub max_ack_note_length : ℕ
max_ack_note_length = 200

-- `lock_open_alerts_of_site`
unfoldable pub lock_open_alerts_of_site : String → Store → List Incident
lock_open_alerts_of_site site_id s = filter (λ r. str_eq r.site_id site_id && r.is_open) s.incidents

unfoldable pub rows_by_device : List Incident → Dict Incident
rows_by_device = foldl (λ d r. insert r.device_id r d) []

abbrev pub is_none {ℓ} : {A : Type ℓ} → Option A → Bool
is_none none = true
is_none (some a) = false

abbrev pub same : Bool → Bool → Bool
same true b = b
same false b = not b

-- Nothing to do for the row: acknowledged already, or with `clear` not acknowledged.
abbrev pub is_settled : Bool → Incident → Bool
is_settled clear r = same (is_none r.acknowledged_at) clear

-- Who acknowledges (or clears), when, and with which note.
pub record Acknowledgement : Type 0 where
  pub clear : Bool
  pub at : Time
  pub by : String
  pub note : String

unfoldable pub write_acknowledgement : Acknowledgement → Incident → Store → Store
unfolding set_acknowledgement clear_acknowledgement insert_alert_event
write_acknowledgement a r s =
    insert_alert_event
      (record {
        incident_id = r.id;
        kind = if a.clear then unacknowledged else acknowledged;
        at = a.at;
        level = r.level;
        reason = r.reason;
      })
      (if a.clear
        then clear_acknowledgement r.id s
        else set_acknowledgement r.id a.at a.by
            (first_characters max_ack_note_length (stripped a.note)) s)

-- One device of the loop: the row was read before it, and is there when no device is missing.
abbrev pub acknowledge_row :
    Acknowledgement → String → Option Incident → Store × List String → Store × List String
acknowledge_row a device_id none state = state
acknowledge_row a device_id (some r) (s, changed) =
    if is_settled a.clear r
    then (s, changed)
    else (write_acknowledgement a r s, changed ++ (device_id ∷ []))

unfoldable pub acknowledge_each :
    Acknowledgement → Dict Incident → List String → Store × List String → Store × List String
unfolding write_acknowledgement
acknowledge_each a by_device [] state = state
acknowledge_each a by_device (device_id ∷ wanted) state =
    acknowledge_each a by_device wanted
      (acknowledge_row a device_id (lookup device_id by_device) state)

-- The devices asked for, or all of the site's.
abbrev pub wanted_devices : List String → Dict Incident → List String
wanted_devices [] by_device = map (λ e. e.0) by_device
wanted_devices (d ∷ ids) by_device = unique (d ∷ ids)

pub record Answer : Type 0 where
  pub changed : List String
  pub missing : List String

abbrev pub if_complete : List String → Store → Store × List String → Store × Answer
if_complete (d ∷ missing) s state = (s, record { changed = []; missing = d ∷ missing })
if_complete [] s (after, changed) = (after, record { changed = changed; missing = [] })

unfoldable pub acknowledge : String → List String → Acknowledgement → Store → Store × Answer
unfolding lock_open_alerts_of_site rows_by_device
acknowledge site_id device_ids a s =
    let by_device = rows_by_device (lock_open_alerts_of_site site_id s) in
    let wanted = wanted_devices device_ids by_device in
    if_complete (filter (λ d. not (contains d by_device)) wanted) s
      (acknowledge_each a by_device wanted (s, []))
