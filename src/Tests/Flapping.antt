-- ===== src/Tests/Flapping.antt =====
-- The theorems on device states at a device that went down and up.
use nautobot_maps.Prelude.{◌≡◌, refl, true, false, [], ◌∷◌, none, some, Dict}
use nautobot_maps.Alerts.DeviceState.{
  DeviceRow, Stored, recent, next_device_state, device_states_to_write, any_differs, any_expired,
  row_differs, is_expired, same_state,
}
use nautobot_maps.Alerts.Flapping.{KeptOption, next_device_state-IsKept, next_device_state_settles}
use nautobot_maps.Alerts.StateTable.{write_device_states, device_states_to_write_complete}

abbrev down_row : DeviceRow
down_row = record {
  down = true;
  since = 1_000_000;
  changes = 1_000_000 ∷ [];
  flapping_since = none;
  source = "nautobot";
}

abbrev flapping_row : DeviceRow
flapping_row = record {
  down = false;
  since = 3_000_000;
  changes = 1_000_000 ∷ 2_000_000 ∷ 3_000_000 ∷ [];
  flapping_since = some 3_000_000;
  source = "";
}

next_device_state-IsKept_example :
    KeptOption 2 2_000_000 (next_device_state 2 (some down_row) false none 2_000_000 "")
next_device_state-IsKept_example =
    next_device_state-IsKept 2 (some down_row) false none 2_000_000 ""

next_device_state_settles_example :
    next_device_state 3 (some flapping_row) false none 1_803_000_000 "" ≡ none
next_device_state_settles_example =
    next_device_state_settles 3 flapping_row none 1_803_000_000 "" refl refl

abbrev stored_rows : Dict Stored
stored_rows = ("d1", record { row = down_row; updated_at = some 1_000_000 }) ∷ []

write_needed :
    device_states_to_write (("d1", ("s1", some down_row)) ∷ []) stored_rows 2_000_000 ≡ false
unfolding device_states_to_write any_differs any_expired row_differs is_expired same_state recent
write_needed = refl

device_states_to_write_complete_example :
    write_device_states
      (("d1", ("s1", some down_row)) ∷ [])
      stored_rows
      2_000_000
      2_000_000
      stored_rows
    ≡ stored_rows
device_states_to_write_complete_example =
    device_states_to_write_complete (("d1", ("s1", some down_row)) ∷ []) stored_rows 2_000_000
      2_000_000 write_needed
