-- ===== src/Incidents/Since.antt =====
-- When a device went down and came back up: `down_since`, `_down_since`, `earliest_time`,
-- `came_up_at` of alerts_service.py. The time of a build is always a time.
use nautobot_maps.Prelude.{
  ◌≤◌, ◌<◌, min, Bool, not, ◌&&◌, ◌||◌, Option, none, some, String, str_eq, ltb, leb, arith,
  if◌then◌else◌, List, [], ◌∷◌,
}
use nautobot_maps.Text.{Text}
use nautobot_maps.Availability.Interval.{Time}
use nautobot_maps.Alerts.DeviceState.{DeviceRow}

-- A text that should be a time: empty, not a time, or one.
pub data Stamp : Type 0 where
  missing unreadable : Stamp
  stamp : Time → Stamp

-- A device of the board, as far as its incident needs it.
pub record BoardDevice : Type 0 where
  pub id : String
  pub name : String
  pub status : Text
  pub wireless : Bool
  pub webhook_since : Stamp
  pub down_source : String
  pub last_updated : Stamp
  pub first_seen_down_at : Stamp

-- `_aware`
abbrev pub aware : Stamp → Option Time
aware (stamp t) = some t
aware _ = none

-- `earliest_time`, of readable times first to last.
unfoldable pub earliest_time : List Stamp → Option Time
earliest_time [] = none
earliest_time (missing ∷ l) = earliest_time l
earliest_time (unreadable ∷ l) = earliest_time l
earliest_time (stamp t ∷ l) = elim (earliest_time l) [ none ↦ some t | some u ↦ some (min t u) ]

abbrev pub or_at : Option Time → Time → Time
or_at none at = at
or_at (some t) at = t

-- Not Nautobot's status says that it is down.
abbrev pub is_seen_by_build : String → Bool
is_seen_by_build source =
    str_eq source "librenms" || str_eq source "flapping" || str_eq source "wireless"

-- The end of `_down_since`: Nautobot's edit, if it was before the build.
abbrev pub edited_before : Stamp → Time → Time
edited_before (stamp t) checked_at = if ltb t checked_at then t else checked_at
edited_before _ checked_at = checked_at

-- `_down_since`
abbrev pub observed_since : Stamp → String → Stamp → Time → Time
observed_since missing source updated checked_at =
    if is_seen_by_build source then checked_at else edited_before updated checked_at
observed_since webhook source updated checked_at =
    or_at (earliest_time (webhook ∷ stamp checked_at ∷ [])) checked_at

unfoldable pub down_since : BoardDevice → Time → Time
unfolding earliest_time
down_since d checked_at =
    or_at
      (earliest_time (
        stamp (observed_since d.webhook_since d.down_source d.last_updated checked_at)
        ∷ d.first_seen_down_at
        ∷ []))
      checked_at

-- The edit is after the outage began, and not after the build.
abbrev pub edited_within : Stamp → Time → Time → Time
edited_within (stamp t) began now = if ltb began t && leb t now then t else now
edited_within _ began now = now

unfoldable pub came_up_at : Stamp → Option DeviceRow → Time → Time
came_up_at last_updated none now = now
came_up_at last_updated (some r) now =
    if not r.down || not (str_eq r.source "nautobot")
    then now
    else edited_within last_updated r.since now

observed_since-le :
    (webhook : Stamp) (source : String) (updated : Stamp) (checked_at : Time)
    → observed_since webhook source updated checked_at ≤ checked_at
unfolding earliest_time
observed_since-le missing source (stamp t) checked_at = ground arith
observed_since-le missing source missing checked_at = ground arith
observed_since-le missing source unreadable checked_at = ground arith
observed_since-le unreadable source updated checked_at = ground arith
observed_since-le (stamp t) source updated checked_at = ground arith

or_earlier-le :
    (t checked_at : Time) (s : Stamp)
    → t ≤ checked_at
    → or_at (earliest_time (stamp t ∷ s ∷ [])) checked_at ≤ checked_at
unfolding earliest_time
or_earlier-le t checked_at missing h = h
or_earlier-le t checked_at unreadable h = h
or_earlier-le t checked_at (stamp u) h = ground arith

-- No device went down after the build that found it so.
pub down_since-le : (d : BoardDevice) (checked_at : Time) → down_since d checked_at ≤ checked_at
unfolding down_since
down_since-le d checked_at =
    or_earlier-le (observed_since d.webhook_since d.down_source d.last_updated checked_at)
      checked_at d.first_seen_down_at
      (observed_since-le d.webhook_since d.down_source d.last_updated checked_at)

-- A device came up by the time of the build, and when Nautobot said that it was down and it went
-- down before the build, after it went down.
pub came_up_at-within :
    (last_updated : Stamp) (r : DeviceRow) (now : Time)
    → r.since < now
    → (came_up_at last_updated (some r) now ≤ now)
      × (r.since < came_up_at last_updated (some r) now)
unfolding came_up_at
came_up_at-within (stamp t) r now h = ground arith
came_up_at-within missing r now h = ground arith
came_up_at-within unreadable r now h = ground arith
