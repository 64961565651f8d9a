-- ===== src/Alerts/DeviceState.antt =====
-- Flapping and the stored up/down state of a device (alerts_service.py, from FLAP_WINDOW to
-- `write_device_states`). Times are in microseconds; a text that is no time is none.
use nautobot_maps.Prelude.{
  ℕ, ◌+◌, Bool, true, false, not, ◌&&◌, ◌||◌, List, [], ◌∷◌, ◌++◌, Option, none, some, String,
  str_eq, ltb, leb, ◌==◌, if◌then◌else◌, length, filter, Dict, lookup, contains,
}
use nautobot_maps.Availability.Interval.{Time}

-- Thirty minutes, and seven days.
abbrev pub flap_window : ℕ
flap_window = 1_800_000_000

abbrev pub device_state_retention : ℕ
device_state_retention = 604_800_000_000

pub record DeviceRow : Type 0 where
  pub down : Bool
  pub since : Time
  pub changes : List Time
  pub flapping_since : Option Time
  pub source : String

-- A row of `device_states`, with when a build last saw the device.
pub record Stored : Type 0 where
  pub row : DeviceRow
  pub open row use *
  pub updated_at : Option Time

-- `change > now - FLAP_WINDOW`
abbrev pub is_recent : Time → Time → Bool
is_recent now change = ltb now (change + flap_window)

unfoldable pub recent : List Time → Time → List Time
recent changes now = filter (is_recent now) changes

-- `a or b`, for two times that may be missing.
abbrev pub or_time : Option Time → Time → Time
or_time none now = now
or_time (some t) now = t

abbrev pub same_bool : Bool → Bool → Bool
same_bool true b = b
same_bool false b = not b

-- The state before: up and steady for a device without a row.
abbrev pub steady : DeviceRow
steady = record { down = false; since = 0; changes = []; flapping_since = none; source = "" }

abbrev pub stored_or_steady : Option DeviceRow → DeviceRow
stored_or_steady none = steady
stored_or_steady (some s) = s

abbrev pub has_row : Option DeviceRow → Bool
has_row none = false
has_row (some s) = true

-- Since when the device is in the state that it is in now.
unfoldable pub state_since : Option DeviceRow → Bool → Option Time → Time → Time
state_since stored is_down since now =
    if is_down
    then or_time since now
    else if has_row stored && not (stored_or_steady stored).down
    then (stored_or_steady stored).since
    else or_time since now

-- `not changes`
abbrev pub no_times : List Time → Bool
no_times [] = true
no_times (t ∷ l) = false

-- The changes that count after this build.
unfoldable pub next_changes : ℕ → DeviceRow → Bool → Time → Time → List Time
unfolding recent
next_changes flap_changes previous is_down since now =
    let seen : List Time =
      if same_bool is_down previous.down
      then previous.changes
      else previous.changes ++ since ∷ [] in
    if flap_changes == 0 then [] else recent seen now

unfoldable pub next_flapping : ℕ → Option Time → List Time → Time → Option Time
next_flapping flap_changes before changes now =
    if flap_changes == 0
    then none
    else if leb flap_changes (length changes)
    then some (or_time before now)
    else if no_times changes
    then none
    else before

abbrev pub is_some {ℓ} : {A : Type ℓ} → Option A → Bool
is_some none = false
is_some (some a) = true

-- The row that the build answers; none for a device that is up and steady.
unfoldable pub row_to_keep : Bool → Time → List Time → Option Time → String → Option DeviceRow
row_to_keep is_down since changes flapping source =
    if not is_down && no_times changes && not (is_some flapping)
    then none
    else some (record {
      down = is_down;
      since = since;
      changes = changes;
      flapping_since = flapping;
      source = if is_down then source else "";
    })

-- FLAP_CHANGES first; `stored` is the row before this build.
unfoldable pub next_device_state :
    ℕ → Option DeviceRow → Bool → Option Time → Time → String → Option DeviceRow
next_device_state flap_changes stored is_down since now source =
    let previous = stored_or_steady stored in
    let entered = state_since stored is_down since now in
    let changes = next_changes flap_changes previous is_down entered now in
    row_to_keep is_down entered changes
      (next_flapping flap_changes previous.flapping_since changes now) source

abbrev pub option_time_eq : Option Time → Option Time → Bool
option_time_eq none none = true
option_time_eq (some a) (some b) = a == b
option_time_eq _ _ = false

abbrev pub times_eq : List Time → List Time → Bool
times_eq [] [] = true
times_eq (a ∷ l) (b ∷ m) = a == b && times_eq l m
times_eq _ _ = false

unfoldable pub same_state : Stored → DeviceRow → Time → Bool
unfolding recent
same_state stored row now =
    same_bool stored.down row.down
    && str_eq stored.source row.source
    && stored.since == row.since
    && option_time_eq stored.flapping_since row.flapping_since
    && times_eq (recent stored.changes now) row.changes

-- Whether the build has something to store for one device.
unfoldable pub row_differs : Option DeviceRow → Option Stored → Time → Bool
unfolding same_state
row_differs none none now = false
row_differs none (some previous) now = true
row_differs (some row) none now = true
row_differs (some row) (some previous) now = not (same_state previous row now)

-- Not among this build's devices, and not seen for DEVICE_STATE_RETENTION.
unfoldable pub is_expired : Dict (String × Option DeviceRow) → Time → String → Stored → Bool
is_expired next_states now device_id state =
    not (contains device_id next_states)
    && elim state.updated_at [ none ↦ false | some t ↦ ltb (t + device_state_retention) now ]

unfoldable pub any_differs : Dict (String × Option DeviceRow) → Dict Stored → Time → Bool
unfolding row_differs
any_differs [] stored now = false
any_differs ((device_id, (site_id, row)) ∷ next) stored now =
    row_differs row (lookup device_id stored) now || any_differs next stored now

unfoldable pub any_expired : Dict (String × Option DeviceRow) → Dict Stored → Time → Bool
unfolding is_expired
any_expired next [] now = false
any_expired next ((device_id, state) ∷ stored) now =
    is_expired next now device_id state || any_expired next stored now

unfoldable pub device_states_to_write : Dict (String × Option DeviceRow) → Dict Stored → Time → Bool
unfolding any_differs any_expired
device_states_to_write next stored now = any_differs next stored now || any_expired next stored now
