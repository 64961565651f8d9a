-- ===== src/Planned/Window.antt =====
-- Maintenance windows of maintenance_service.py: `state`, `history_minutes`, `read_active`,
-- `cache_seconds`, `end_many` and `end`. A window covers a whole site when its device id is "". Its
-- id is the table's primary key. The time of a call is its argument.
use mathlib.Core.List.{foldl}
use nautobot_maps.Prelude.{
  ℕ, ◌+◌, ◌-◌, ◌/◌, min, max, Bool, true, false, ◌&&◌, ◌||◌, List, [], ◌∷◌, map, Option, none, some,
  String, str_eq, ltb, leb, ◌==◌, if◌then◌else◌, length, filter, sort_by, Dict, insert,
}
use nautobot_maps.Availability.Interval.{Time, microseconds}
use nautobot_maps.Availability.Report.{round_div}

pub record Window : Type 0 where
  pub id : ℕ
  pub site_id : String
  pub device_id : String
  pub starts_at : Time
  pub ends_at : Time
  pub ended_at : Option Time
  pub ended_by : String
  pub reason : String
  pub created_by : String
  pub batch_id : String

pub data State : Type 0 where
  upcoming active ended cancelled : State

-- The state of a window that nobody has ended.
abbrev pub open_state : Time → Time → Time → State
open_state starts ends at =
    if ltb at starts then upcoming else if ltb at ends then active else ended

unfoldable pub state : Window → Time → State
state w at = elim w.ended_at [
  | some t ↦ if ltb t w.starts_at then cancelled else ended
  | none ↦ open_state w.starts_at w.ends_at at
]

-- `state(w, current) in ("active", "upcoming")`
abbrev pub is_open_state : State → Bool
is_open_state upcoming = true
is_open_state active = true
is_open_state _ = false

abbrev pub minute : ℕ
minute = 60_000_000

-- A negative time would round to at most 0.
unfoldable pub history_minutes : Window → Time → ℕ
history_minutes w at =
    let stop : Time = min (elim w.ended_at [ some t ↦ t | none ↦ w.ends_at ]) at in
    round_div (stop - w.starts_at) minute

-- Nobody has ended it, early or before it began (`ended_at IS NULL`).
abbrev pub not_ended : Window → Bool
not_ended w = elim w.ended_at [ none ↦ true | some t ↦ false ]

-- The `WHERE` of the active windows.
unfoldable pub is_active_row : Time → Window → Bool
is_active_row at w = not_ended w && leb w.starts_at at && ltb at w.ends_at

pub record Active : Type 0 where
  pub sites : Dict Window
  pub devices : Dict Window
  pub next_change : Option Time

abbrev pub ends_not_after : Window → Window → Bool
ends_not_after a b = leb a.ends_at b.ends_at

-- The loop over the rows: the last one of a site or device stays.
unfoldable pub add_active : Dict Window × Dict Window → Window → Dict Window × Dict Window
add_active (sites, devices) w =
    if str_eq w.device_id ""
    then (insert w.site_id w sites, devices)
    else (sites, insert w.device_id w devices)

-- SQL's `LEAST` and `MIN`, where NULL is no value.
abbrev pub least : Option Time → Option Time → Option Time
least none b = b
least (some a) none = some a
least (some a) (some b) = some (min a b)

-- A time, if it is after the given one.
abbrev pub if_after : Time → Time → Option Time
if_after at t = if ltb at t then some t else none

abbrev pub min_after : (Window → Time) → Time → List Window → Option Time
min_after time at [] = none
min_after time at (w ∷ rows) =
    let rest = min_after time at rows in
    if not_ended w then least (if_after at (time w)) rest else rest

unfoldable pub next_change_of : List Window → Time → Option Time
next_change_of table at =
    least (min_after (λ w. w.starts_at) at table) (min_after (λ w. w.ends_at) at table)

unfoldable pub read_active : List Window → Time → Active
unfolding is_active_row add_active
read_active table at =
    let (sites, devices) =
      foldl add_active ([], []) (sort_by ends_not_after (filter (is_active_row at) table)) in
    record { sites = sites; devices = devices; next_change = next_change_of table at }

-- `now` is the time of the call.
unfoldable pub cache_seconds : Option Time → ℕ → Time → ℕ
cache_seconds none default now = default
cache_seconds (some upcoming') default now =
    max 1 (min default ((upcoming' - now) / microseconds + 1))

abbrev pub is_among : ℕ → List ℕ → Bool
is_among id [] = false
is_among id (i ∷ ids) = id == i || is_among id ids

-- The windows with the given ids, in the order of the table's ids.
unfoldable pub selected : List ℕ → List Window → List Window
selected ids = filter (λ w. is_among w.id ids)

unfoldable pub open_ids : Time → List Window → List ℕ
unfolding state
open_ids current windows =
    map (λ (w : Window). w.id) (filter (λ w. is_open_state (state w current)) windows)

-- The `UPDATE`, and the same on the rows that were read.
unfoldable pub end_rows : Time → String → List ℕ → List Window → List Window
end_rows current ended_by open_ids' = map (λ w.
    if is_among w.id open_ids'
    then record w { ended_at = some current; ended_by = ended_by }
    else w)

pub record Ended : Type 0 where
  pub table : List Window
  pub windows : List (Window × State)
  pub changed : ℕ

unfoldable pub end_many : Time → List ℕ → String → List Window → Ended
unfolding end_rows open_ids selected state
end_many current window_ids ended_by table =
    let windows = selected window_ids table in
    let open_ids' = open_ids current windows in
    record {
      table = end_rows current ended_by open_ids' table;
      windows = map (λ w. (w, state w current)) (end_rows current ended_by open_ids' windows);
      changed = length open_ids';
    }

abbrev first : List (Window × State) → Option (Window × State)
first [] = none
first (w ∷ windows) = some w

unfoldable pub end : Time → ℕ → String → List Window → List Window × Option (Window × State)
unfolding end_many
end current window_id ended_by table =
    let done = end_many current (window_id ∷ []) ended_by table in (done.table, first done.windows)
