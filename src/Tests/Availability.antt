-- ===== src/Tests/Availability.antt =====
-- The availability theorems at a small history.
use nautobot_maps.Prelude.{◌≡◌, refl, false, not, ◌&&◌, List, [], ◌∷◌, none, some, arith, ltb, leb}
use nautobot_maps.Level.{low, critical, level_eq}
use nautobot_maps.Availability.Interval.{Interval, union, subtract, clip, total_length}
use nautobot_maps.Availability.Cover.{covers}
use nautobot_maps.Availability.Subtract.{covers-subtract}
use nautobot_maps.Availability.Measure.{count_below}
use nautobot_maps.Availability.Reading.{WindowRow, IncidentRow}
use nautobot_maps.Availability.Report.{set_downtime, report_down, no_downtime}
use nautobot_maps.Availability.Critical.{Change, critical_intervals, select_changes}
use nautobot_maps.Availability.Downtime.{report_down_exact}
use nautobot_maps.Availability.Figures.{counts_at, set_downtime-report_down}
use nautobot_maps.Availability.CriticalTime.{known_since, level_at, critical_intervals_exact}
use nautobot_maps.Availability.CriticalRead.{critical_intervals-select_changes}

abbrev overlapping : List Interval
overlapping = (7, 9) ∷ (1, 3) ∷ (2, 5) ∷ (4, 4) ∷ []

abbrev holes : List Interval
holes = (8, 20) ∷ (2, 4) ∷ []

run-union : union overlapping ≡ (1, 5) ∷ (7, 9) ∷ []
unfolding union
run-union = refl

run-subtract : subtract overlapping holes ≡ (1, 2) ∷ (4, 5) ∷ (7, 8) ∷ []
unfolding subtract
run-subtract = refl

covers-subtract_example :
    covers 3 (subtract overlapping holes) ≡ (covers 3 overlapping && not (covers 3 holes))
covers-subtract_example = covers-subtract 3 overlapping holes

abbrev windows : List WindowRow
windows =
    record {
      site_id = "a";
      device_id = "";
      starts_at = 3_000_000;
      ends_at = 9_000_000;
      ended_at = some 5_000_000;
    }
    ∷ record {
      site_id = "a";
      device_id = "d2";
      starts_at = 0;
      ends_at = 8_000_000;
      ended_at = none;
    }
    ∷ []

abbrev incidents : List IncidentRow
incidents =
    record {
      site_id = "a";
      site_name = "A";
      device_id = "d1";
      down_started_at = some 1_000_000;
      resolved_at = some 7_000_000;
      access_point = false;
    }
    ∷ record {
      site_id = "a";
      site_name = "A";
      device_id = "d2";
      down_started_at = some 6_000_000;
      resolved_at = none;
      access_point = false;
    }
    ∷ []

run-report_down :
    report_down windows incidents 2_000_000 10_000_000 12_000_000 "a"
    ≡ (2_000_000, 3_000_000) ∷ (5_000_000, 7_000_000) ∷ (8_000_000, 10_000_000) ∷ []
unfolding report_down subtract clip
run-report_down = refl

report_down_exact_example :
    covers 6_500_000 (report_down windows incidents 2_000_000 10_000_000 12_000_000 "a")
    ≡ counts_at windows incidents 2_000_000 10_000_000 12_000_000 "a" 6_500_000
report_down_exact_example =
    report_down_exact windows incidents 2_000_000 10_000_000 12_000_000 6_500_000 "a"

set_downtime-report_down_example :
    total_length
      (set_downtime no_downtime (report_down windows incidents 20 100 120 "a") 100).downtime
    ≡ count_below 100 (counts_at windows incidents 20 100 120 "a")
set_downtime-report_down_example =
    set_downtime-report_down no_downtime windows incidents 20 100 120 "a"

abbrev two_outages : List Interval
two_outages = (0, 3_000_000) ∷ (5_000_000, 11_000_000) ∷ []

abbrev first_change : Change
first_change = record { from_level = low; to_level = critical; at = 5 }

abbrev later_changes : List Change
later_changes =
    record { from_level = critical; to_level = low; at = 12 }
    ∷ record { from_level = low; to_level = critical; at = 15 }
    ∷ record { from_level = critical; to_level = low; at = 25 }
    ∷ []

critical_intervals_exact_example :
    covers 11 (critical_intervals 10 20 (some 2) (first_change ∷ later_changes)) ≡ (
      (leb (known_since 10 20 (some 2) first_change) 11 && ltb 11 20)
      && level_eq (level_at low (first_change ∷ later_changes) 11) critical)
critical_intervals_exact_example =
    critical_intervals_exact 10 20 11 (some 2) first_change later_changes (omega arith)
      (omega arith) (omega arith)

critical_intervals-select_changes_example :
    critical_intervals 10 20 (some 2) (select_changes 10 20 (first_change ∷ later_changes))
    ≡ critical_intervals 10 20 (some 2) (first_change ∷ later_changes)
critical_intervals-select_changes_example =
    critical_intervals-select_changes 10 20 (some 2) (first_change ∷ later_changes) (omega arith)

abbrev maintenance_rows : List WindowRow
maintenance_rows =
    record { site_id = "s1"; device_id = ""; starts_at = 10; ends_at = 40; ended_at = some 30 }
    ∷ record { site_id = "s1"; device_id = "d1"; starts_at = 20; ends_at = 90; ended_at = none }
    ∷ []
