-- ===== src/Availability/Reading.antt =====
-- `read_maintenance`, `_down_span` and `read_incidents` of availability_service.py: the rows of the
-- database as intervals, by site and by device. A row stands for what its query selects.
use mathlib.Core.List.{foldl}
use nautobot_maps.Prelude.{
  ℕ, min, Bool, true, false, not, ◌&&◌, List, [], ◌∷◌, Option, none, some, String, str_eq, ltb, leb,
  if◌then◌else◌, Dict, append_to, lookup, insert, filter, ◌+◌,
}
use nautobot_maps.Availability.Interval.{Time, Interval}

-- A row of `maintenance_windows`; `device_id` is "" for a whole site.
pub record WindowRow : Type 0 where
  pub site_id : String
  pub device_id : String
  pub starts_at : Time
  pub ends_at : Time
  pub ended_at : Option Time

-- The `WHERE` of the query: the windows in the period that were not cancelled.
unfoldable pub window_in_period : Time → Time → WindowRow → Bool
window_in_period start end w =
    ltb w.starts_at end
    && ltb start w.ends_at
    && elim w.ended_at [ none ↦ true | some ended ↦ ltb w.starts_at ended ]

-- Until it ended, early or as planned; none when nothing is left.
unfoldable pub window_interval : WindowRow → Option Interval
window_interval w =
    let stop : Time = elim w.ended_at [ none ↦ w.ends_at | some ended ↦ min w.ends_at ended ] in
    if leb stop w.starts_at then none else some (w.starts_at, stop)

pub record Windows : Type 0 where
  pub sites : Dict (List Interval)
  pub devices : Dict (List Interval)

unfoldable pub add_interval : WindowRow → Option Interval → Windows → Windows
add_interval w none found = found
add_interval w (some i) found =
    if str_eq w.device_id ""
    then record found { sites = append_to w.site_id i found.sites }
    else record found { devices = append_to w.device_id i found.devices }

unfoldable pub add_window : Windows → WindowRow → Windows
unfolding add_interval window_interval
add_window found w = add_interval w (window_interval w) found

abbrev pub no_windows : Windows
no_windows = record { sites = []; devices = [] }

unfoldable pub read_maintenance : List WindowRow → Time → Time → Windows
unfolding add_window window_in_period
read_maintenance table start end =
    foldl add_window no_windows (filter (window_in_period start end) table)

-- A row of `alert_instances`; both texts are "" when unknown.
pub record IncidentRow : Type 0 where
  pub site_id : String
  pub site_name : String
  pub device_id : String
  pub down_started_at : Option Time
  pub resolved_at : Option Time
  pub access_point : Bool

-- INCIDENTS_IN_PERIOD: down at some point in the period; a comparison with NULL does not hold.
unfoldable pub incident_in_period : Time → Time → IncidentRow → Bool
incident_in_period start end r =
    elim r.resolved_at [ none ↦ true | some up ↦ ltb start up ]
    && elim r.down_started_at [ none ↦ false | some down ↦ ltb down end ]
    && not r.access_point

unfoldable pub down_span : IncidentRow → Time → Option Interval
down_span r at =
    let up : Time = elim r.resolved_at [ none ↦ at | some t ↦ t ] in
    elim r.down_started_at [
      | none ↦ none
      | some down ↦ if leb up down then none else some (down, up)
    ]

-- One site of the result of `read_incidents`.
pub record SiteIncidents : Type 0 where
  pub name : String
  pub incidents : ℕ
  pub devices : Dict (List Interval)

abbrev pub no_incidents : String → SiteIncidents
no_incidents name = record { name = name; incidents = 0; devices = [] }

-- `sites.setdefault(...)`: the site's entry, or a new one.
abbrev pub entry_of : IncidentRow → Dict SiteIncidents → SiteIncidents
entry_of r sites = elim (lookup r.site_id sites) [ none ↦ no_incidents r.site_name | some s ↦ s ]

unfoldable pub add_span : IncidentRow → Option Interval → Dict SiteIncidents → Dict SiteIncidents
add_span r none sites = sites
add_span r (some i) sites =
    let site = entry_of r sites in
    insert r.site_id
      (record site {
        incidents = site.incidents + 1;
        devices = append_to r.device_id i site.devices;
      })
      sites

unfoldable pub add_incidents : Time → List IncidentRow → Dict SiteIncidents → Dict SiteIncidents
unfolding add_span down_span
add_incidents at [] sites = sites
add_incidents at (r ∷ rows) sites = add_incidents at rows (add_span r (down_span r at) sites)

unfoldable pub read_incidents : List IncidentRow → Time → Time → Time → Dict SiteIncidents
unfolding add_incidents incident_in_period
read_incidents table start end at =
    add_incidents at (filter (incident_in_period start end) table) []
