-- ===== src/Incidents/Reported.antt =====
-- Which incidents of a site are open after a build of it.
use nautobot_maps.Prelude.{
  ◌≤◌, ◌≡◌, refl, ap, ◌∙◌, sym, Bool, true, false, not, ◌&&◌, ◌||◌, List, [], ◌∷◌, map, Option,
  none, some, String, str_eq, eq_iff, leb, arith, if◌then◌else◌, any, all, Dict, lookup,
}
use nautobot_maps.Text.{stripped}
use nautobot_maps.Availability.Interval.{Time}
use nautobot_maps.Incidents.Since.{BoardDevice}
use nautobot_maps.Incidents.Store.{Incident, Store, build_alert_key, is_open_key}
use nautobot_maps.Incidents.Lifecycle.{
  Finding, record_devices, frozen_keys, end_of, resolve_open_alert_instances_for_site,
  upsert_alert_lifecycle_for_site,
}
use nautobot_maps.Incidents.Resolve.{is_recovered, recovered_row, resolve_exact}
use nautobot_maps.Incidents.Rows.{IsSound}
use nautobot_maps.Incidents.Sound.{record_devices-IsSound}
use nautobot_maps.Incidents.Began.{started_by, started-record_devices}
use nautobot_maps.Incidents.Opened.{has_open, is_down_key, record_devices-has_open}

listed_key :
    (k i : String) (keys : List String)
    → any (str_eq k) keys ≡ true
    → str_eq i k ≡ true
    → any (str_eq i) keys ≡ true
listed_key k i keys h e = ap (λ j. any (str_eq j) keys) ((eq_iff i k).0 e) ∙ h

-- Resolving, row by row.
module _ (site_id : String) (keys : List String) (at : Time) (came_up : Dict Time) where
  abbrev resolved_if : Incident → Incident
  resolved_if r = if is_recovered site_id keys at came_up r then recovered_row at came_up r else r

  kept_open :
      (k : String) (l : List Incident)
      → any (str_eq k) keys ≡ true
      → any (is_open_key k) (map resolved_if l) ≡ any (is_open_key k) l
  unfolding is_open_key
  kept_open k [] h = refl
  kept_open k (r ∷ l) h = ground (arith, kept_open k l h, listed_key k r.key keys h)

  began-le-end : (o : Option Time) (began : Time) → began ≤ at → began ≤ end_of o began at
  began-le-end none began h = h
  began-le-end (some up) began h = ground arith

  none_left :
      (l : List Incident)
      → all (λ r. leb r.down_started_at at) l ≡ true
      → any
          (λ r. str_eq r.site_id site_id && r.is_open && not (any (str_eq r.key) keys))
          (map resolved_if l)
        ≡ false
  none_left [] h = refl
  none_left (r ∷ l) h =
      ground (arith, none_left l, began-le-end (lookup r.device_id came_up) r.down_started_at)

-- The key of a device that is down, or frozen because it is in maintenance.
abbrev pub stays_open : (String → String) → Finding → List BoardDevice → String → Bool
stays_open digest f devices k =
    any (λ i. str_eq k (build_alert_key digest (stripped f.site_id) i)) f.frozen_device_ids
    || any (is_down_key digest f k) devices

any-map :
    (k : String) (g : String → String) (l : List String)
    → any (str_eq k) (map g l) ≡ any (λ i. str_eq k (g i)) l
any-map k g [] = refl
any-map k g (i ∷ l) = ap (λ b. str_eq k (g i) || b) (any-map k g l)

-- The keys that the loop gathers are those that stay open.
gathered-stays_open :
    (digest : String → String) (f : Finding) (devices : List BoardDevice) (s : Store) (k : String)
    → any (str_eq k) (record_devices digest f devices (frozen_keys digest f, s)).0
      ≡ stays_open digest f devices k
unfolding frozen_keys
gathered-stays_open digest f devices s k =
    (record_devices-has_open digest f k devices (frozen_keys digest f, s)).1
    ∙ ap (λ b. b || any (is_down_key digest f k) devices)
        (any-map k (build_alert_key digest (stripped f.site_id)) f.frozen_device_ids)

any-congr :
    (p q : Incident → Bool) → ((r : Incident) → p r ≡ q r) → (l : List Incident) → any p l ≡ any q l
any-congr p q h [] = refl
any-congr p q h (r ∷ l) = ground (arith, h r, any-congr p q h l)

-- After the loop over the devices, when the keys gathered are those of `stays_open`.
after_resolve :
    (digest : String → String) (f : Finding) (devices : List BoardDevice) (k : String)
    (p : List String × Store)
    → IsSound p.1
    → started_by f.checked_at p.1 ≡ true
    → any (str_eq k) p.0 ≡ true
    → has_open k (
        resolve_open_alert_instances_for_site
          (stripped f.site_id)
          p.0
          f.checked_at
          f.resolved_at_by_device
          p.1)
      ≡ has_open k p.1
after_resolve digest f devices k (keys, s) sound h kept =
    ap (any (is_open_key k)) (
      resolve_exact (stripped f.site_id) keys f.checked_at f.resolved_at_by_device s
        sound.distinct_ids)
    ∙ kept_open (stripped f.site_id) keys f.checked_at f.resolved_at_by_device k s.incidents kept

-- After a build of a site, whose table was sound and has no incident that began after it: for a
-- device that is down, or frozen, an incident is open exactly if one was before or the device is
-- down.
pub upsert-reported :
    (digest : String → String) (f : Finding) (devices : List BoardDevice) (s : Store) (k : String)
    → IsSound s
    → started_by f.checked_at s ≡ true
    → str_eq (stripped f.site_id) "" ≡ false
    → stays_open digest f devices k ≡ true
    → has_open k (upsert_alert_lifecycle_for_site digest f devices s)
      ≡ (has_open k s || any (is_down_key digest f k) devices)
unfolding upsert_alert_lifecycle_for_site
upsert-reported digest f devices s k sound h site kept =
    let start : List String × Store = (frozen_keys digest f, s) in
    rw site (
      after_resolve digest f devices k (record_devices digest f devices start)
        (record_devices-IsSound digest f devices start sound)
        (started-record_devices digest f devices start h)
        (gathered-stays_open digest f devices s k ∙ kept)
      ∙ (record_devices-has_open digest f k devices start).0)

-- After a build of a site, whose table was sound and has no incident that began after it, no incident
-- of the site is open but those of devices that are down or frozen.
pub upsert-none_else :
    (digest : String → String) (f : Finding) (devices : List BoardDevice) (s : Store)
    → IsSound s
    → started_by f.checked_at s ≡ true
    → str_eq (stripped f.site_id) "" ≡ false
    → any
        (λ r.
          str_eq r.site_id (stripped f.site_id)
          && r.is_open
          && not (stays_open digest f devices r.key))
        (upsert_alert_lifecycle_for_site digest f devices s).incidents
      ≡ false
unfolding upsert_alert_lifecycle_for_site
upsert-none_else digest f devices s sound h site =
    let start : List String × Store = (frozen_keys digest f, s) in
    let p = record_devices digest f devices start in
    let site_id = stripped f.site_id in
    let sound' = record_devices-IsSound digest f devices start sound in
    let begun = started-record_devices digest f devices start h in
    rw site (
      ap
        (any
          (λ r. str_eq r.site_id site_id && r.is_open && not (stays_open digest f devices r.key)))
        (resolve_exact site_id p.0 f.checked_at f.resolved_at_by_device p.1 sound'.distinct_ids)
      ∙ any-congr
          (λ r. str_eq r.site_id site_id && r.is_open && not (stays_open digest f devices r.key))
          (λ r. str_eq r.site_id site_id && r.is_open && not (any (str_eq r.key) p.0))
          (λ r.
            ap (λ b. str_eq r.site_id site_id && r.is_open && not b)
              (sym (gathered-stays_open digest f devices s r.key)))
          (map (resolved_if site_id p.0 f.checked_at f.resolved_at_by_device) p.1.incidents)
      ∙ none_left site_id p.0 f.checked_at f.resolved_at_by_device p.1.incidents begun)
