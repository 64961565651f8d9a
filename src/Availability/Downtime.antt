-- ===== src/Availability/Downtime.antt =====
-- What counts as down time in the report, by the rows of the two tables.
use nautobot_maps.Prelude.{
  ◌≡◌, refl, ◌∙◌, Bool, true, false, not, ◌&&◌, ◌||◌, List, [], ◌∷◌, Option, none, some, String,
  str_eq, eq_iff, ltb, leb, arith, any, filter, Dict, get_list, append_to, lookup, lookup-insert,
}
use nautobot_maps.Availability.Interval.{Time, Interval, subtract, clip}
use nautobot_maps.Availability.Cover.{holds, covers, covers-append}
use nautobot_maps.Availability.Subtract.{covers-subtract, covers-clip}
use nautobot_maps.Availability.Maintenance.{
  option_holds, covers-snoc, site_window_at, device_window_at, read_maintenance-sites,
  read_maintenance-devices,
}
use nautobot_maps.Availability.Reading.{
  WindowRow, Windows, read_maintenance, IncidentRow, incident_in_period, down_span, SiteIncidents,
  add_span, add_incidents, read_incidents, entry_of,
}
use nautobot_maps.Availability.Report.{devices_down, site_down, report_down}

-- The device of the incident was down at the instant: an open one until `at`. Not an access point.
abbrev pub incident_holds : Time → Time → IncidentRow → Bool
incident_holds at t r =
    not r.access_point
    && elim r.down_started_at [ none ↦ false | some down ↦ leb down t ]
    && ltb t (elim r.resolved_at [ none ↦ at | some up ↦ up ])

down_span-holds :
    (at t : Time) (r : IncidentRow)
    → r.access_point ≡ false
    → option_holds t (down_span r at) ≡ incident_holds at t r
unfolding down_span
down_span-holds at t r h = ground arith

-- Some device's down time holds the instant, and none of the device's windows does.
exposed : Time → Dict (List Interval) → Dict (List Interval) → Bool
exposed t windows [] = false
exposed t windows ((k, l) ∷ d) =
    (covers t l && not (covers t (get_list k windows))) || exposed t windows d

covers-devices_down :
    (t : Time) (windows d : Dict (List Interval))
    → covers t (devices_down windows d) ≡ exposed t windows d
unfolding devices_down exposed covers
covers-devices_down t windows [] = refl
covers-devices_down t windows ((k, l) ∷ d) = ground (
  arith,
  covers-append t (subtract l (get_list k windows)) (devices_down windows d),
  covers-subtract t l (get_list k windows),
  covers-devices_down t windows d,
)

exposed-append_to :
    (t : Time) (k : String) (i : Interval) (windows d : Dict (List Interval))
    → exposed t windows (append_to k i d)
      ≡ (exposed t windows d || (holds t i && not (covers t (get_list k windows))))
unfolding exposed
exposed-append_to t k i windows [] = unfold covers in ground arith
exposed-append_to t k i windows ((j, l) ∷ d) =
    ground (arith, eq_iff k j, covers-snoc t l i, exposed-append_to t k i windows d)

exposed_in : Time → Dict (List Interval) → Option SiteIncidents → Bool
exposed_in t windows none = false
exposed_in t windows (some s) = exposed t windows s.devices

exposed-entry_of :
    (t : Time) (windows : Dict (List Interval)) (r : IncidentRow) (sites : Dict SiteIncidents)
    → exposed t windows (entry_of r sites).devices ≡ exposed_in t windows (lookup r.site_id sites)
unfolding exposed_in exposed
exposed-entry_of t windows r sites = ground arith

exposed_in-add_span :
    (t : Time) (j : String) (windows : Dict (List Interval)) (r : IncidentRow) (o : Option Interval)
    (sites : Dict SiteIncidents)
    → exposed_in t windows (lookup j (add_span r o sites)) ≡ (
        exposed_in t windows (lookup j sites)
        || (str_eq j r.site_id
            && option_holds t o
            && not (covers t (get_list r.device_id windows))))
unfolding add_span exposed_in
exposed_in-add_span t j windows r none sites = ground arith
exposed_in-add_span t j windows r (some i) sites = rw lookup-insert (
    ground (
      arith,
      eq_iff j r.site_id,
      exposed-entry_of t windows r sites,
      exposed-append_to t r.device_id i windows (entry_of r sites).devices,
    ))

-- The incident's device was down at the instant and in none of its windows.
counted_by : Time → Time → String → Dict (List Interval) → IncidentRow → Bool
counted_by at t j windows r =
    str_eq j r.site_id
    && option_holds t (down_span r at)
    && not (covers t (get_list r.device_id windows))

exposed_in-add_incidents :
    (at t : Time) (j : String) (windows : Dict (List Interval)) (rows : List IncidentRow)
    (sites : Dict SiteIncidents)
    → exposed_in t windows (lookup j (add_incidents at rows sites))
      ≡ (exposed_in t windows (lookup j sites) || any (counted_by at t j windows) rows)
unfolding add_incidents counted_by
exposed_in-add_incidents at t j windows [] sites = ground arith
exposed_in-add_incidents at t j windows (r ∷ rows) sites = ground (
  arith,
  exposed_in-add_incidents at t j windows rows (add_span r (down_span r at) sites),
  exposed_in-add_span t j windows r (down_span r at) sites,
)

-- The row makes the instant down time of its device: the device was down, in no window of its own.
abbrev pub row_counts : Time → Time → List WindowRow → IncidentRow → Bool
row_counts at t windows r = incident_holds at t r && not (device_window_at t r.device_id windows)

module _ (at t start end : Time) (j : String) (windows : List WindowRow)
    (inside : (leb start t && ltb t end) ≡ true) where
  counted_in_period :
      (r : IncidentRow)
      → (incident_in_period start end r
          && counted_by at t j (read_maintenance windows start end).devices r)
        ≡ (str_eq j r.site_id && row_counts at t windows r)
  unfolding incident_in_period counted_by
  counted_in_period r = ground (
    arith,
    down_span-holds at t r,
    read_maintenance-devices t start end r.device_id windows inside,
  )

  any-filter_in_period :
      (rows : List IncidentRow)
      → any
          (counted_by at t j (read_maintenance windows start end).devices)
          (filter (incident_in_period start end) rows)
        ≡ any (λ r. str_eq j r.site_id && row_counts at t windows r) rows
  any-filter_in_period [] = refl
  any-filter_in_period (r ∷ rows) = ground (arith, counted_in_period r, any-filter_in_period rows)

covers-site_down :
    (t start end : Time) (j : String) (windows : Windows) (o : Option SiteIncidents)
    → covers t (elim o [ none ↦ [] | some data_ ↦ site_down windows start end j data_ ]) ≡ (
        (exposed_in t windows.devices o && (leb start t && ltb t end))
        && not (covers t (get_list j windows.sites)))
unfolding site_down exposed_in
covers-site_down t start end j windows none = unfold covers in refl
covers-site_down t start end j windows (some d) =
    covers-subtract t (clip (devices_down windows.devices d.devices) start end)
      (get_list j windows.sites)
    ∙ ground (
      arith,
      covers-clip t start end (devices_down windows.devices d.devices),
      covers-devices_down t windows.devices d.devices,
    )

within_period :
    (p a b x y : Bool)
    → (p ≡ true → a ≡ x)
    → (p ≡ true → b ≡ y)
    → ((a && p) && not b) ≡ (p && (x && not y))
within_period p a b x y h k = ground arith

-- The report (basis `any_down`) counts an instant of the period as down time of a site exactly when
-- some incident of the site says that its device, no access point, was down then and not in a
-- window of its own, and no window of the whole site covers the instant. Outside the period
-- nothing is counted.
pub report_down_exact :
    (windows : List WindowRow) (incidents : List IncidentRow) (start end at t : Time) (j : String)
    → covers t (report_down windows incidents start end at j) ≡ (
        (leb start t && ltb t end)
        && (any (λ r. str_eq j r.site_id && row_counts at t windows r) incidents
            && not (site_window_at t j windows)))
unfolding report_down read_incidents exposed_in
report_down_exact windows incidents start end at t j =
    covers-site_down t start end j (read_maintenance windows start end)
      (lookup j (read_incidents incidents start end at))
    ∙ within_period (leb start t && ltb t end)
        (exposed_in t (read_maintenance windows start end).devices
          (lookup j (read_incidents incidents start end at)))
        (covers t (get_list j (read_maintenance windows start end).sites))
        (any (λ r. str_eq j r.site_id && row_counts at t windows r) incidents)
        (site_window_at t j windows)
        (λ inside.
          exposed_in-add_incidents at t j (read_maintenance windows start end).devices
            (filter (incident_in_period start end) incidents) []
          ∙ any-filter_in_period at t start end j windows inside incidents)
        (read_maintenance-sites t start end j windows)
