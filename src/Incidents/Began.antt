-- ===== src/Incidents/Began.antt =====
-- No incident begins after the build that opens it.
use nautobot_maps.Prelude.{
  ℕ, ◌≤◌, ◌≡◌, refl, Bool, true, false, List, [], ◌∷◌, ◌++◌, map, Option, none, some, String, leb,
  ◌==◌, arith, if◌then◌else◌, all,
}
use nautobot_maps.Availability.Interval.{Time}
use nautobot_maps.Incidents.Since.{BoardDevice, down_since-le}
use nautobot_maps.Incidents.Store.{
  Incident, Store, latest_open_alert, open_alert_instance, insert_alert_event, refreshed,
}
use nautobot_maps.Incidents.Lifecycle.{
  Finding, new_incident, refresh, refresh_if_open, after_insert, open_or_refresh, record_down,
  record_devices, counts_as_down,
}
use nautobot_maps.Incidents.Opened.{after_device}

-- Every incident began by the given time.
abbrev pub started_by : Time → Store → Bool
started_by c s = all (λ r. leb r.down_started_at c) s.incidents

started-refreshed :
    (c : Time) (n : ℕ) (new : Incident) (l : List Incident)
    → all (λ r. leb r.down_started_at c) l ≡ true
    → all (λ r. leb r.down_started_at c) (map (λ r. if r.id == n then refreshed new r else r) l)
      ≡ true
started-refreshed c n new [] h = refl
started-refreshed c n new (r ∷ l) h = ground (arith, started-refreshed c n new l)

started-append :
    (c : Time) (new : Incident) (l : List Incident)
    → new.down_started_at ≤ c
    → all (λ r. leb r.down_started_at c) l ≡ true
    → all (λ r. leb r.down_started_at c) (l ++ (new ∷ [])) ≡ true
started-append c new [] h k = ground arith
started-append c new (r ∷ l) h k = ground (arith, started-append c new l)

started-refresh :
    (c at : Time) (new current : Incident) (s : Store)
    → started_by c s ≡ true
    → started_by c (refresh at new current s) ≡ true
unfolding refresh
started-refresh c at new current s h =
    ground (arith, started-refreshed c current.id new s.incidents)

started-refresh_if_open :
    (c at : Time) (new : Incident) (o : Option Incident) (s : Store)
    → started_by c s ≡ true
    → started_by c (refresh_if_open at new o s) ≡ true
started-refresh_if_open c at new none s h = h
started-refresh_if_open c at new (some current) s h = started-refresh c at new current s h

started-open :
    (c : Time) (new : Incident) (s : Store)
    → new.down_started_at ≤ c
    → started_by c s ≡ true
    → started_by c (open_alert_instance new s).1 ≡ true
unfolding open_alert_instance
started-open c new s h k =
    ground (arith, started-append c (record new { id = s.next_id }) s.incidents h k)

started-after_insert :
    (c at : Time) (new : Incident) (p : Option ℕ × Store)
    → started_by c p.1 ≡ true
    → started_by c (after_insert at new p) ≡ true
unfolding insert_alert_event
started-after_insert c at new (some id, s) h = h
started-after_insert c at new (none, s) h =
    started-refresh_if_open c at new (latest_open_alert s new.key) s h

started-record_down :
    (c at : Time) (new : Incident) (s : Store)
    → new.down_started_at ≤ c
    → started_by c s ≡ true
    → started_by c (record_down at new s) ≡ true
unfolding record_down
started-record_down c at new s h k = by_latest (latest_open_alert s new.key)
  where
    by_latest : (o : Option Incident) → started_by c (open_or_refresh at new o s) ≡ true
    by_latest none =
        started-after_insert c at new (open_alert_instance new s) (started-open c new s h k)
    by_latest (some current) = started-refresh c at new current s k

new_incident-le :
    (digest : String → String) (f : Finding) (d : BoardDevice)
    → (new_incident digest f d).down_started_at ≤ f.checked_at
unfolding new_incident
new_incident-le digest f d = down_since-le d f.checked_at

started-after_device :
    (digest : String → String) (f : Finding) (d : BoardDevice) (b : Bool) (p : List String × Store)
    → started_by f.checked_at p.1 ≡ true
    → started_by f.checked_at (after_device digest f d b p).1 ≡ true
started-after_device digest f d false p h = h
started-after_device digest f d true p h =
    started-record_down f.checked_at f.checked_at (new_incident digest f d) p.1
      (new_incident-le digest f d) h

pub started-record_devices :
    (digest : String → String) (f : Finding) (devices : List BoardDevice) (p : List String × Store)
    → started_by f.checked_at p.1 ≡ true
    → started_by f.checked_at (record_devices digest f devices p).1 ≡ true
unfolding record_devices
started-record_devices digest f [] p h = h
started-record_devices digest f (d ∷ devices) (keys, s) h =
    started-record_devices digest f devices (after_device digest f d (counts_as_down d) (keys, s))
      (started-after_device digest f d (counts_as_down d) (keys, s) h)
