-- ===== src/Incidents/Opened.antt =====
-- A down device has an open incident after the build, and what is open stays so until it is resolved.
use nautobot_maps.Prelude.{
  ℕ, ◌+◌, ◌≡◌, refl, ap, ◌∙◌, sym, Bool, true, false, ◌&&◌, ◌||◌, List, [], ◌∷◌, ◌++◌, map, Option,
  none, some, String, str_eq, eq_iff, ◌==◌, any-append, arith, if◌then◌else◌, any,
}
use nautobot_maps.Text.{stripped}
use nautobot_maps.Availability.Interval.{Time}
use nautobot_maps.Incidents.Since.{BoardDevice}
use nautobot_maps.Incidents.Store.{
  Incident, Store, build_alert_key, is_open_key, last_of_key, latest_open_alert,
  open_alert_instance, insert_alert_event, refreshed,
}
use nautobot_maps.Incidents.Lifecycle.{
  Finding, new_incident, refresh, refresh_if_open, after_insert, open_or_refresh, record_down,
  record_devices, counts_as_down,
}

-- An incident is open with the key.
abbrev pub has_open : String → Store → Bool
has_open key s = any (is_open_key key) s.incidents

-- A row that keeps its key and whether it is open.
has_open-map :
    (k : String) (n : ℕ) (new : Incident) (l : List Incident)
    → any (is_open_key k) (map (λ r. if r.id == n then refreshed new r else r) l)
      ≡ any (is_open_key k) l
unfolding is_open_key
has_open-map k n new [] = refl
has_open-map k n new (r ∷ l) = ground (arith, has_open-map k n new l)

has_open-refresh :
    (k : String) (at : Time) (new current : Incident) (s : Store)
    → has_open k (refresh at new current s) ≡ has_open k s
unfolding refresh
has_open-refresh k at new current s = ground (arith, has_open-map k current.id new s.incidents)

has_open-refresh_if_open :
    (k : String) (at : Time) (new : Incident) (o : Option Incident) (s : Store)
    → has_open k (refresh_if_open at new o s) ≡ has_open k s
has_open-refresh_if_open k at new none s = refl
has_open-refresh_if_open k at new (some current) s = has_open-refresh k at new current s

or_true : (b : Bool) → true ≡ (b || true)
or_true b = ground arith

or_false : (b : Bool) → b ≡ (b || false)
or_false b = ground arith

absorbed :
    (key k : String) (s : Store)
    → has_open key s ≡ true
    → has_open k s ≡ (has_open k s || str_eq key k)
absorbed key k s h = by_test (str_eq key k) refl
  where
    by_test : (b : Bool) → str_eq key k ≡ b → has_open k s ≡ (has_open k s || b)
    by_test true e = ap (λ i. has_open i s) (sym ((eq_iff key k).0 e)) ∙ h ∙ or_true (has_open k s)
    by_test false e = or_false (has_open k s)

has_open-open_alert_instance :
    (k : String) (new : Incident) (s : Store)
    → new.is_open ≡ true
    → has_open k (open_alert_instance new s).1 ≡ (has_open k s || str_eq new.key k)
unfolding open_alert_instance is_open_key
has_open-open_alert_instance k new s h = by_test (has_open new.key s) refl
  where
    by_test :
        (b : Bool)
        → has_open new.key s ≡ b
        → has_open k
            (if◌then◌else◌ {A = Option ℕ × Store} b
              (none, s)
              (
                some s.next_id,
                record s {
                  incidents = s.incidents ++ (record new { id = s.next_id } ∷ []);
                  next_id = s.next_id + 1;
                },
              )).1
          ≡ (has_open k s || str_eq new.key k)
    by_test true e = absorbed new.key k s e
    by_test false e =
        any-append (is_open_key k) s.incidents (record new { id = s.next_id } ∷ [])
        ∙ ap (λ b. has_open k s || b) (ground arith)

has_open-after_insert :
    (k : String) (at : Time) (new : Incident) (p : Option ℕ × Store)
    → has_open k (after_insert at new p) ≡ has_open k p.1
unfolding insert_alert_event
has_open-after_insert k at new (some id, s) = refl
has_open-after_insert k at new (none, s) =
    has_open-refresh_if_open k at new (latest_open_alert s new.key) s

-- The last open row of a key is there exactly when some row is open.
abbrev is_found : Option Incident → Bool
is_found none = false
is_found (some r) = true

last_of_key-is_found :
    (key : String) (found : Option Incident) (l : List Incident)
    → is_found (last_of_key key found l) ≡ (is_found found || any (is_open_key key) l)
last_of_key-is_found key found [] = ground arith
last_of_key-is_found key found (r ∷ l) =
    ground (arith, last_of_key-is_found key (if is_open_key key r then some r else found) l)

has_open-open_or_refresh :
    (k : String) (at : Time) (new : Incident) (o : Option Incident) (s : Store)
    → new.is_open ≡ true
    → is_found o ≡ has_open new.key s
    → has_open k (open_or_refresh at new o s) ≡ (has_open k s || str_eq new.key k)
has_open-open_or_refresh k at new none s h e =
    has_open-after_insert k at new (open_alert_instance new s)
    ∙ has_open-open_alert_instance k new s h
has_open-open_or_refresh k at new (some current) s h e =
    has_open-refresh k at new current s ∙ absorbed new.key k s (sym e)

-- After a down device is recorded its incident is open, and for all other keys nothing changed.
pub has_open-record_down :
    (k : String) (at : Time) (new : Incident) (s : Store)
    → new.is_open ≡ true
    → has_open k (record_down at new s) ≡ (has_open k s || str_eq new.key k)
unfolding record_down latest_open_alert
has_open-record_down k at new s h =
    has_open-open_or_refresh k at new (last_of_key new.key none s.incidents) s h
      (last_of_key-is_found new.key none s.incidents)

-- The device is down, and its incident has the key.
abbrev pub is_down_key : (String → String) → Finding → String → BoardDevice → Bool
is_down_key digest f k d =
    counts_as_down d && str_eq (build_alert_key digest (stripped f.site_id) (stripped d.id)) k

is_open-new_incident :
    (digest : String → String) (f : Finding) (d : BoardDevice)
    → (new_incident digest f d).is_open ≡ true
unfolding new_incident
is_open-new_incident digest f d = refl

-- The state after one device.
abbrev pub after_device :
    (String → String) → Finding → BoardDevice → Bool → List String × Store → List String × Store
after_device digest f d b p =
    if b
    then (
      (new_incident digest f d).key ∷ p.0,
      record_down f.checked_at (new_incident digest f d) p.1,
    )
    else p

after_device-has_open :
    (digest : String → String) (f : Finding) (k : String) (d : BoardDevice) (b : Bool)
    (p : List String × Store)
    → (has_open k (after_device digest f d b p).1
        ≡ (has_open k p.1 || (b && str_eq (new_incident digest f d).key k)))
      × (any (str_eq k) (after_device digest f d b p).0
          ≡ (any (str_eq k) p.0 || (b && str_eq (new_incident digest f d).key k)))
after_device-has_open digest f k d false p = ground arith
after_device-has_open digest f k d true p = (
  has_open-record_down k f.checked_at (new_incident digest f d) p.1
      (is_open-new_incident digest f d),
  ground (arith, eq_iff k (new_incident digest f d).key, eq_iff (new_incident digest f d).key k),
)

or_assoc : (a b c : Bool) → ((a || b) || c) ≡ (a || (b || c))
or_assoc a b c = ground arith

-- After the loop an incident is open for exactly the keys that had one and those of down devices,
-- and the keys gathered are those given and those of down devices.
pub record_devices-has_open :
    (digest : String → String) (f : Finding) (k : String) (devices : List BoardDevice)
    (p : List String × Store)
    → (has_open k (record_devices digest f devices p).1
        ≡ (has_open k p.1 || any (is_down_key digest f k) devices))
      × (any (str_eq k) (record_devices digest f devices p).0
          ≡ (any (str_eq k) p.0 || any (is_down_key digest f k) devices))
unfolding record_devices new_incident build_alert_key
record_devices-has_open digest f k [] p = ground arith
record_devices-has_open digest f k (d ∷ devices) (keys, s) =
    let (now_open, now_kept) = after_device-has_open digest f k d (counts_as_down d) (keys, s) in
    let (found, gathered) =
      record_devices-has_open digest f k devices
        (after_device digest f d (counts_as_down d) (keys, s)) in
    let rest = any (is_down_key digest f k) devices in
    (
      found
          ∙ ap (λ b. b || rest) now_open
          ∙ or_assoc (has_open k s) (is_down_key digest f k d) rest,
      gathered
          ∙ ap (λ b. b || rest) now_kept
          ∙ or_assoc (any (str_eq k) keys) (is_down_key digest f k d) rest,
    )
