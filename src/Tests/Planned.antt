-- ===== src/Tests/Planned.antt =====
-- The theorems on maintenance windows at a small table.
use nautobot_maps.Prelude.{
  ℕ, String, ◌≡◌, ◌≤◌, ◌+◌, ◌*◌, refl, true, false, ◌&&◌, List, [], ◌∷◌, none, some, map, filter,
  length, arith, all, min,
}
use nautobot_maps.Availability.Report.{round_div}
use nautobot_maps.Planned.Window.{
  Window, minute, state, is_among, is_open_state, read_active, next_change_of, end_many,
  history_minutes,
}
use nautobot_maps.Text.{stripped, count_characters}
use nautobot_maps.Planned.Request.{
  Body, absent, string, items, whole, text_item, Moment, at_time, Result, raised, value, create,
  has_text, max_reason_length, read_site_ids, read_reason, read_device_ids, checked_devices,
  read_start, read_end, checked_period, new_rows, when, checked_sites, unique,
}
use nautobot_maps.Planned.Creation.{Holds, AreNew, from_now, create-AreNew, create-from_now}
use nautobot_maps.Planned.Listing.{
  list_windows, history, history_exceeds, in_history, list_windows-open, history_complete,
}
use nautobot_maps.Planned.Active.{is_before, read_active-stable}
use nautobot_maps.Planned.Ending.{ended_if_open, end_many_exact}

abbrev site_window : Window
site_window = record {
  id = 1;
  site_id = "s1";
  device_id = "";
  starts_at = 60_000_000;
  ends_at = 600_000_000;
  ended_at = none;
  ended_by = "";
  reason = "new core";
  created_by = "ann";
  batch_id = "b1";
}

abbrev device_window : Window
device_window = record site_window { id = 2; device_id = "d1"; starts_at = 300_000_000 }

abbrev planned_windows : List Window
planned_windows =
    site_window ∷ device_window ∷ record site_window { id = 3; ended_at = some 90_000_000 } ∷ []

run-history_minutes : history_minutes site_window 330_000_000 ≡ 4
unfolding history_minutes round_div
run-history_minutes = refl

before_next_change :
    is_before 299_000_000 (read_active planned_windows 60_000_000).next_change ≡ true
unfolding read_active next_change_of
before_next_change = refl

read_active-stable_example :
    ((read_active planned_windows 299_000_000).sites
      ≡ (read_active planned_windows 60_000_000).sites)
    × ((read_active planned_windows 299_000_000).devices
        ≡ (read_active planned_windows 60_000_000).devices)
read_active-stable_example =
    read_active-stable planned_windows 60_000_000 299_000_000 (ground arith) before_next_change

end_many_exact_example :
    ((end_many 100_000_000 (1 ∷ 3 ∷ []) "ann" planned_windows).table
      ≡ map (ended_if_open 100_000_000 (1 ∷ 3 ∷ []) "ann") planned_windows)
    × ((end_many 100_000_000 (1 ∷ 3 ∷ []) "ann" planned_windows).changed
        ≡ length (
            filter
              (λ w. is_among w.id (1 ∷ 3 ∷ []) && is_open_state (state w 100_000_000))
              planned_windows))
end_many_exact_example = end_many_exact 100_000_000 (1 ∷ 3 ∷ []) "ann" planned_windows refl

abbrev two_site_request : Body
two_site_request = record {
  site_id = absent;
  site_ids = items (text_item " s1 " ∷ text_item "s2" ∷ text_item "s1" ∷ []);
  device_ids = absent;
  reason = string "new core";
  starts_at = string "tomorrow";
  ends_at = absent;
  duration_minutes = whole 30;
}

abbrev read_tomorrow : String → Moment
read_tomorrow s = at_time 90_000_000

create-AreNew_example :
    Holds (AreNew 50_000_000) (create read_tomorrow 50_000_000 4 "b2" "ann" two_site_request)
create-AreNew_example = create-AreNew read_tomorrow 50_000_000 4 "b2" "ann" two_site_request

site_has_text : has_text "s1" ≡ true
unfolding stripped
site_has_text = refl

reason_has_text : has_text "new core" ≡ true
unfolding stripped
reason_has_text = refl

reason_is_short : count_characters "new core" ≤ max_reason_length
unfolding count_characters
reason_is_short = ground arith

create-from_now_example :
    create read_tomorrow 50_000_000 4 "b2" "ann" (from_now "s1" "new core" 30)
    ≡ value (
        record {
          id = 4;
          site_id = stripped "s1";
          device_id = "";
          starts_at = 50_000_000;
          ends_at = 50_000_000 + 30 * minute;
          ended_at = none;
          ended_by = "";
          reason = stripped "new core";
          created_by = "ann";
          batch_id = "b2";
        }
        ∷ [])
create-from_now_example =
    create-from_now read_tomorrow 50_000_000 4 "b2" "ann" "s1" "new core" 30 site_has_text
      reason_has_text reason_is_short (ground arith) (ground arith)

abbrev counted : Result (List Window) → ℕ
counted (raised e) = 0
counted (value l) = length l

run-create : counted (create read_tomorrow 50_000_000 4 "b2" "ann" two_site_request) ≡ 2
unfolding create read_site_ids read_reason read_device_ids checked_devices read_start read_end
    checked_period new_rows when checked_sites unique stripped count_characters
run-create = refl

list_windows-open_example :
    (all (λ e. is_open_state e.1) (list_windows planned_windows "" false 70_000_000 0 1) ≡ true)
    × (length (list_windows planned_windows "" false 70_000_000 0 1)
        ≡ min 1 (length (filter (λ w. is_open_state (state w 70_000_000)) planned_windows)))
list_windows-open_example = list_windows-open planned_windows 70_000_000 1 refl

few_windows : history_exceeds planned_windows 50_000_000 90_000_000 none 5 ≡ false
unfolding history_exceeds in_history
few_windows = refl

history_complete_example :
    length (history planned_windows 50_000_000 90_000_000 none 5 100_000_000)
    ≡ length (filter (in_history 50_000_000 90_000_000 none) planned_windows)
history_complete_example =
    history_complete planned_windows 50_000_000 90_000_000 none 5 100_000_000 few_windows
