-- ===== src/Alerts/StateTable.antt =====
-- `write_device_states` on the table, and when it has nothing to do.
use nautobot_maps.Prelude.{
  ◌≡◌, refl, ap, false, not, List, [], ◌∷◌, Option, none, some, String, str_eq, arith,
  if◌then◌else◌, filter, any, Dict, lookup, insert,
}
use nautobot_maps.Availability.Interval.{Time}
use nautobot_maps.Alerts.DeviceState.{
  DeviceRow, Stored, same_state, row_differs, is_expired, any_differs, any_expired,
  device_states_to_write,
}

-- What the loop of `write_device_states` does for one device: drop its row, leave it, or store it.
pub data Write : Type 0 where
  leave drop : Write
  store : DeviceRow → Write

unfoldable pub write_for : Option DeviceRow → Option Stored → Time → Write
unfolding same_state
write_for none none now = leave
write_for none (some previous) now = drop
write_for (some row) none now = store row
write_for (some row) (some previous) now = if same_state previous row now then leave else store row

-- `upsert_device_state`, at the database's time `clock`.
unfoldable pub upsert_device_state : String → DeviceRow → Time → Dict Stored → Dict Stored
upsert_device_state device_id row clock =
    insert device_id (record { row = row; updated_at = some clock })

-- The rows that the loop stores, and the devices that it lists as dropped.
unfoldable pub store_rows :
    Dict (String × Option DeviceRow) → Dict Stored → Time → Time → Dict Stored → Dict Stored
unfolding upsert_device_state
store_rows [] stored now clock table = table
store_rows ((device_id, (site_id, row)) ∷ next) stored now clock table =
    store_rows next stored now clock (elim (write_for row (lookup device_id stored) now) [
      | store r ↦ upsert_device_state device_id r clock table
      | _ ↦ table
    ])

abbrev pub list_dropped : Write → String → List String → List String
list_dropped drop device_id rest = device_id ∷ rest
list_dropped _ device_id rest = rest

unfoldable pub dropped : Dict (String × Option DeviceRow) → Dict Stored → Time → List String
dropped [] stored now = []
dropped ((device_id, (site_id, row)) ∷ next) stored now =
    let rest = dropped next stored now in
    list_dropped (write_for row (lookup device_id stored) now) device_id rest

-- `delete_device_states`
unfoldable pub delete_device_states : List String → Dict Stored → Dict Stored
delete_device_states ids = filter (λ e. not (any (str_eq e.0) ids))

-- `delete_unseen_device_states`
unfoldable pub delete_unseen_device_states :
    Dict (String × Option DeviceRow) → Time → Dict Stored → Dict Stored
unfolding is_expired
delete_unseen_device_states next now = filter (λ e. not (is_expired next now e.0 e.1))

unfoldable pub write_device_states :
    Dict (String × Option DeviceRow) → Dict Stored → Time → Time → Dict Stored → Dict Stored
write_device_states next stored now clock table =
    delete_unseen_device_states next now
      (delete_device_states (dropped next stored now) (store_rows next stored now clock table))

write_for-leave :
    (row : Option DeviceRow) (previous : Option Stored) (now : Time)
    → row_differs row previous now ≡ false
    → write_for row previous now ≡ leave
unfolding row_differs write_for
write_for-leave none none now h = refl
write_for-leave none (some p) now h = cc
write_for-leave (some r) none now h = cc
write_for-leave (some r) (some p) now h = ground arith

store_rows-same :
    (next : Dict (String × Option DeviceRow)) (stored : Dict Stored) (now clock : Time)
    (table : Dict Stored)
    → any_differs next stored now ≡ false
    → store_rows next stored now clock table ≡ table
unfolding store_rows any_differs
store_rows-same [] stored now clock table h = refl
store_rows-same ((d, (s, row)) ∷ next) stored now clock table h =
    rw (write_for-leave row (lookup d stored) now (ground arith))
      (store_rows-same next stored now clock table (ground arith))

dropped-none :
    (next : Dict (String × Option DeviceRow)) (stored : Dict Stored) (now : Time)
    → any_differs next stored now ≡ false
    → dropped next stored now ≡ []
unfolding dropped any_differs
dropped-none [] stored now h = refl
dropped-none ((d, (s, row)) ∷ next) stored now h =
    rw (write_for-leave row (lookup d stored) now (ground arith))
      (dropped-none next stored now (ground arith))

delete-none : (table : Dict Stored) → delete_device_states [] table ≡ table
unfolding delete_device_states
delete-none [] = refl
delete-none (e ∷ table) = ap (λ t. e ∷ t) (delete-none table)

delete_unseen-same :
    (next : Dict (String × Option DeviceRow)) (now : Time) (table : Dict Stored)
    → any_expired next table now ≡ false
    → delete_unseen_device_states next now table ≡ table
unfolding delete_unseen_device_states any_expired
delete_unseen-same next now [] h = refl
delete_unseen-same next now (e ∷ table) h = ground (arith, delete_unseen-same next now table)

-- When `device_states_to_write` says that a build has nothing to store, `write_device_states` would
-- leave the table that was read as it is.
pub device_states_to_write_complete :
    (next : Dict (String × Option DeviceRow)) (stored : Dict Stored) (now clock : Time)
    → device_states_to_write next stored now ≡ false
    → write_device_states next stored now clock stored ≡ stored
unfolding write_device_states device_states_to_write
device_states_to_write_complete next stored now clock h =
    rw
      (
        store_rows-same next stored now clock stored (ground arith),
        dropped-none next stored now (ground arith),
        delete-none stored,
      )
      (delete_unseen-same next now stored (ground arith))
