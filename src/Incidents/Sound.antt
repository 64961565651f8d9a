-- ===== src/Incidents/Sound.antt =====
-- Every build keeps the table of incidents sound.
use nautobot_maps.Prelude.{
  ℕ, ◌+◌, ◌≡◌, refl, Bool, true, false, List, [], ◌∷◌, ◌++◌, Option, none, some, String, str_eq,
  arith, if◌then◌else◌, any, Dict,
}
use nautobot_maps.Text.{stripped}
use nautobot_maps.Availability.Interval.{Time}
use nautobot_maps.Incidents.Since.{BoardDevice}
use nautobot_maps.Incidents.Store.{
  Incident, Store, is_open_key, latest_open_alert, open_alert_instance, insert_alert_event,
  open_alerts_of_site, update_row, refreshed,
}
use nautobot_maps.Incidents.Lifecycle.{
  Finding, new_incident, refresh, refresh_if_open, after_insert, open_or_refresh, record_down,
  record_devices, counts_as_down, frozen_keys, resolve_one, resolve_each,
  resolve_open_alert_instances_for_site, upsert_alert_lifecycle_for_site,
}
use nautobot_maps.Incidents.Resolve.{after_round, after_round-keeps, incidents-resolve_one}
use nautobot_maps.Incidents.Rows.{
  IsSound, IsSound-map, update_row-IsSound, one_open-append, distinct-append, below-append,
  unchanged-IsSound,
}

refresh-IsSound :
    (at : Time) (new current : Incident) (s : Store)
    → IsSound s
    → IsSound (refresh at new current s)
unfolding refresh
refresh-IsSound at new current s h =
    unchanged-IsSound (update_row current.id (refreshed new) s) (refresh at new current s)
      (ground arith) (ground arith)
      (update_row-IsSound (refreshed new) (λ r. refl) (λ r. refl) (λ r e. e) current.id s h)

refresh_if_open-IsSound :
    (at : Time) (new : Incident) (o : Option Incident) (s : Store)
    → IsSound s
    → IsSound (refresh_if_open at new o s)
refresh_if_open-IsSound at new none s h = h
refresh_if_open-IsSound at new (some current) s h = refresh-IsSound at new current s h

-- A row is added only when none is open with its key.
open_alert_instance-IsSound :
    (new : Incident) (s : Store) → IsSound s → IsSound (open_alert_instance new s).1
unfolding open_alert_instance
open_alert_instance-IsSound new s h = by_test (any (is_open_key new.key) s.incidents) refl
  where
    by_test :
        (b : Bool)
        → any (is_open_key new.key) s.incidents ≡ b
        → IsSound
            (if◌then◌else◌ {A = Option ℕ × Store} b
              (none, s)
              (
                some s.next_id,
                record s {
                  incidents = s.incidents ++ (record new { id = s.next_id } ∷ []);
                  next_id = s.next_id + 1;
                },
              )).1
    by_test true e = h
    by_test false e = record {
      one_open = one_open-append (record new { id = s.next_id }) s.incidents e h.one_open;
      distinct_ids =
          distinct-append (record new { id = s.next_id }) s.incidents h.ids_below h.distinct_ids;
      ids_below = below-append (record new { id = s.next_id }) s.incidents h.ids_below;
    }

after_insert-IsSound :
    (at : Time) (new : Incident) (p : Option ℕ × Store)
    → IsSound p.1
    → IsSound (after_insert at new p)
unfolding insert_alert_event
after_insert-IsSound at new (some id, s) h = unchanged-IsSound s _ refl refl h
after_insert-IsSound at new (none, s) h =
    refresh_if_open-IsSound at new (latest_open_alert s new.key) s h

record_down-IsSound :
    (at : Time) (new : Incident) (s : Store) → IsSound s → IsSound (record_down at new s)
unfolding record_down
record_down-IsSound at new s h = by_latest (latest_open_alert s new.key)
  where
    by_latest : (o : Option Incident) → IsSound (open_or_refresh at new o s)
    by_latest none =
        after_insert-IsSound at new (open_alert_instance new s)
          (open_alert_instance-IsSound new s h)
    by_latest (some current) = refresh-IsSound at new current s h

pub record_devices-IsSound :
    (digest : String → String) (f : Finding) (devices : List BoardDevice) (p : List String × Store)
    → IsSound p.1
    → IsSound (record_devices digest f devices p).1
unfolding record_devices
record_devices-IsSound digest f [] p h = h
record_devices-IsSound digest f (d ∷ devices) (keys, s) h =
    record_devices-IsSound digest f devices _ (by_status (counts_as_down d))
  where
    by_status :
        (b : Bool)
        → IsSound
            (if◌then◌else◌ {A = List String × Store} b
              (
                (new_incident digest f d).key ∷ keys,
                record_down f.checked_at (new_incident digest f d) s,
              )
              (keys, s)).1
    by_status true = record_down-IsSound f.checked_at (new_incident digest f d) s h
    by_status false = h

next_id-resolve_one :
    (open_keys : List String) (at : Time) (came_up : Dict Time) (r : Incident) (s : Store)
    → (resolve_one open_keys at came_up r s).next_id ≡ s.next_id
unfolding resolve_one
next_id-resolve_one open_keys at came_up r s = ground arith

resolve_one-IsSound :
    (open_keys : List String) (at : Time) (came_up : Dict Time) (r : Incident) (s : Store)
    → IsSound s
    → IsSound (resolve_one open_keys at came_up r s)
resolve_one-IsSound open_keys at came_up r s =
    IsSound-map (after_round open_keys at came_up r)
      (λ t. (after_round-keeps open_keys at came_up r t).0)
      (λ t. (after_round-keeps open_keys at came_up r t).1)
      (λ t. (after_round-keeps open_keys at came_up r t).2) s (resolve_one open_keys at came_up r s)
      (incidents-resolve_one open_keys at came_up r s)
      (next_id-resolve_one open_keys at came_up r s)

resolve_each-IsSound :
    (open_keys : List String) (at : Time) (came_up : Dict Time) (rows : List Incident) (s : Store)
    → IsSound s
    → IsSound (resolve_each open_keys at came_up rows s)
unfolding resolve_each
resolve_each-IsSound open_keys at came_up [] s h = h
resolve_each-IsSound open_keys at came_up (r ∷ rows) s h =
    resolve_each-IsSound open_keys at came_up rows (resolve_one open_keys at came_up r s)
      (resolve_one-IsSound open_keys at came_up r s h)

-- A build of a site keeps the table sound: for each key at most one incident is open, ids are
-- distinct, and below the next one.
pub upsert-IsSound :
    (digest : String → String) (f : Finding) (devices : List BoardDevice) (s : Store)
    → IsSound s
    → IsSound (upsert_alert_lifecycle_for_site digest f devices s)
unfolding upsert_alert_lifecycle_for_site resolve_open_alert_instances_for_site
upsert-IsSound digest f devices s h = by_site (str_eq (stripped f.site_id) "")
  where
    after : List String × Store
    after = record_devices digest f devices (frozen_keys digest f, s)

    by_site :
        (b : Bool)
        → IsSound (
            if b
            then s
            else resolve_each after.0 f.checked_at f.resolved_at_by_device
                (open_alerts_of_site after.1 (stripped f.site_id))
                after.1)
    by_site true = h
    by_site false =
        resolve_each-IsSound after.0 f.checked_at f.resolved_at_by_device
          (open_alerts_of_site after.1 (stripped f.site_id)) after.1
          (record_devices-IsSound digest f devices (frozen_keys digest f, s) h)
