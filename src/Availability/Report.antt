-- ===== src/Availability/Report.antt =====
-- The figures of one site in `report` (basis `any_down`), and `_set_downtime`.
use nautobot_maps.Prelude.{
  ℕ, ◌+◌, ◌-◌, ◌*◌, ◌/◌, ◌%◌, max, List, [], ◌∷◌, ◌++◌, Option, none, some, String, ltb, ◌==◌,
  if◌then◌else◌, Dict, get_list, lookup, length, map, filter,
}
use nautobot_maps.Availability.Interval.{Time, Interval, union, subtract, clip, microseconds}
use nautobot_maps.Availability.Reading.{
  WindowRow, Windows, read_maintenance, IncidentRow, SiteIncidents, read_incidents,
}

-- The loop over `data["devices"]`: each device's down time without its own windows.
unfoldable pub devices_down : Dict (List Interval) → Dict (List Interval) → List Interval
devices_down windows [] = []
devices_down windows ((device_id, intervals) ∷ devices) =
    subtract intervals (get_list device_id windows) ++ devices_down windows devices

unfoldable pub site_down : Windows → Time → Time → String → SiteIncidents → List Interval
unfolding devices_down
site_down windows start end site_id data_ =
    subtract (clip (devices_down windows.devices data_.devices) start end)
      (get_list site_id windows.sites)

-- A site's down time in the period by the rows of the two tables: none without incidents.
unfoldable pub report_down :
    List WindowRow → List IncidentRow → Time → Time → Time → String → List Interval
unfolding site_down read_maintenance read_incidents
report_down windows incidents start end at site_id =
    elim (lookup site_id (read_incidents incidents start end at)) [
      | none ↦ []
      | some data_ ↦ site_down (read_maintenance windows start end) start end site_id data_
    ]

-- The fields of a site's row that `_set_downtime` writes. In place of `downtime_seconds` stand the
-- intervals whose lengths the code adds as floats and then truncates.
pub record DowntimeRow : Type 0 where
  -- The intervals that `seconds` adds up.
  pub downtime : List Interval
  pub outages : ℕ
  pub longest_outage_seconds : ℕ
  pub mean_outage_seconds : Option ℕ
  pub first_outage : Option Time
  pub last_outage : Option Time

-- As `_site_row` makes it: no downtime yet.
abbrev pub no_downtime : DowntimeRow
no_downtime = record {
  downtime = [];
  outages = 0;
  longest_outage_seconds = 0;
  mean_outage_seconds = some 0;
  first_outage = none;
  last_outage = none;
}

-- `int((stop - begin).total_seconds())`
abbrev pub outage_seconds : Interval → ℕ
outage_seconds (s, e) = (e - s) / microseconds

abbrev pub sum : List ℕ → ℕ
sum [] = 0
sum (x ∷ xs) = x + sum xs

abbrev pub maximum : List ℕ → ℕ
maximum [] = 0
maximum (x ∷ xs) = max x (maximum xs)

-- `round(n / d)`: to the nearest, a half to the even one.
unfoldable pub round_div : ℕ → ℕ → ℕ
round_div n d =
    let q = n / d in
    let r = n % d in
    if ltb (2 * r) d then q else if ltb d (2 * r) then q + 1 else if q % 2 == 0 then q else q + 1

-- The last outage's begin, of a list that has a first.
abbrev pub last_begin : Interval → List Interval → Time
last_begin i [] = i.0
last_begin i (j ∷ l) = last_begin j l

unfoldable pub set_outages : DowntimeRow → List Interval → Time → DowntimeRow
unfolding round_div
set_outages row [] end = record row { downtime = union []; outages = 0 }
set_outages row (i ∷ l) end =
    let restored = map outage_seconds (filter (λ o. ltb o.1 end) (i ∷ l)) in
    record {
      downtime = union (i ∷ l);
      outages = length (i ∷ l);
      longest_outage_seconds = maximum (map outage_seconds (i ∷ l));
      mean_outage_seconds =
          if length restored == 0 then none else some (round_div (sum restored) (length restored));
      first_outage = some i.0;
      last_outage = some (last_begin i l);
    }

unfoldable pub set_downtime : DowntimeRow → List Interval → Time → DowntimeRow
unfolding set_outages
set_downtime row down end = set_outages row (union down) end
