-- ===== src/Tests/Incidents.antt =====
-- The theorems on incidents at a site with one device down and one that came up again.
use nautobot_maps.Prelude.{
  ◌≡◌, refl, true, false, [], ◌∷◌, none, String, str_eq, any, ◌&&◌, not, ◌||◌, map, lookup,
  if◌then◌else◌,
}
use nautobot_maps.Level.{critical}
use nautobot_maps.Planned.Request.{unique, unique_from}
use nautobot_maps.Incidents.Since.{BoardDevice, missing, stamp}
use nautobot_maps.Incidents.Store.{Incident, Store, is_open_key, build_alert_key}
use nautobot_maps.Incidents.Lifecycle.{
  Finding, frozen_keys, counts_as_down, new_incident, upsert_alert_lifecycle_for_site,
  resolve_open_alert_instances_for_site,
}
use nautobot_maps.Incidents.Rows.{IsSound}
use nautobot_maps.Incidents.Sound.{upsert-IsSound}
use nautobot_maps.Incidents.Opened.{has_open, is_down_key}
use nautobot_maps.Incidents.Reported.{stays_open, upsert-reported, upsert-none_else}
use nautobot_maps.Incidents.Resolve.{is_recovered, recovered_row, resolve_exact}
use nautobot_maps.Incidents.Acknowledge.{
  Acknowledgement, acknowledge, acknowledge_each, wanted_devices, rows_by_device,
  lock_open_alerts_of_site,
}
use nautobot_maps.Incidents.Rounds.{is_settled_row}
use nautobot_maps.Incidents.Settled.{open_rows, acknowledge_again, acknowledge_settles}
use nautobot_maps.Text.{text, lower, strip, strip_left, stripped, strip_start, strip_end}

abbrev digest : String → String
digest s = s

abbrev down_device : BoardDevice
down_device = record {
  id = " d1 ";
  name = "sw-1";
  status = text "Offline";
  wireless = false;
  webhook_since = missing;
  down_source = "nautobot";
  last_updated = stamp 4_000_000;
  first_seen_down_at = missing;
}

abbrev finding : Finding
finding = record {
  site_id = "s1";
  site_name = "Site 1";
  level = critical;
  reason = "1 of 2 devices down";
  checked_at = 9_000_000;
  frozen_device_ids = [];
  resolved_at_by_device = ("d2", 8_000_000) ∷ [];
  probable_causes = [];
  core_device_ids = [];
}

abbrev recovered : Incident
recovered = record {
  id = 1;
  key = "s1::d2";
  site_id = "s1";
  site_name = "Site 1";
  device_id = "d2";
  device_name = "sw-2";
  level = critical;
  reason = "1 of 2 devices down";
  is_open = true;
  down_started_at = 3_000_000;
  last_seen_down_at = 5_000_000;
  resolved_at = none;
  total_downtime_seconds = 0;
  probable_cause = "";
  is_core = false;
  access_point = false;
  acknowledged_at = none;
  acknowledged_by = "";
  ack_note = "";
}

abbrev one_open : Store
one_open = record { incidents = recovered ∷ []; events = []; next_id = 2 }

one_open-IsSound : IsSound one_open
unfolding is_open_key
one_open-IsSound = record { one_open = refl; distinct_ids = refl; ids_below = refl }

site_id_given : str_eq (stripped finding.site_id) "" ≡ false
unfolding stripped strip_start strip_end
site_id_given = refl

stays_open_d1 : stays_open digest finding (down_device ∷ []) "s1::d1" ≡ true
unfolding frozen_keys counts_as_down new_incident build_alert_key stripped strip_start strip_end
    lower strip strip_left
stays_open_d1 = refl

upsert-IsSound_example :
    IsSound (upsert_alert_lifecycle_for_site digest finding (down_device ∷ []) one_open)
upsert-IsSound_example = upsert-IsSound digest finding (down_device ∷ []) one_open one_open-IsSound

upsert-reported_example :
    has_open "s1::d1" (upsert_alert_lifecycle_for_site digest finding (down_device ∷ []) one_open)
    ≡ (has_open "s1::d1" one_open || any (is_down_key digest finding "s1::d1") (down_device ∷ []))
upsert-reported_example =
    upsert-reported digest finding (down_device ∷ []) one_open "s1::d1" one_open-IsSound refl
      site_id_given stays_open_d1

upsert-none_else_example :
    any
      (λ r.
        str_eq r.site_id (stripped finding.site_id)
        && r.is_open
        && not (stays_open digest finding (down_device ∷ []) r.key))
      (upsert_alert_lifecycle_for_site digest finding (down_device ∷ []) one_open).incidents
    ≡ false
upsert-none_else_example =
    upsert-none_else digest finding (down_device ∷ []) one_open one_open-IsSound refl site_id_given

resolve_exact_example :
    (resolve_open_alert_instances_for_site "s1" [] 9_000_000
      (("d2", 8_000_000) ∷ [])
      one_open).incidents
    ≡ map
        (λ r.
          if is_recovered "s1" [] 9_000_000 (("d2", 8_000_000) ∷ []) r
          then recovered_row 9_000_000 (("d2", 8_000_000) ∷ []) r
          else r)
        one_open.incidents
resolve_exact_example = resolve_exact "s1" [] 9_000_000 (("d2", 8_000_000) ∷ []) one_open refl

abbrev by_ann : Acknowledgement
by_ann = record { clear = false; at = 6_000_000; by = "ann"; note = "on it" }

abbrev by_bob : Acknowledgement
by_bob = record { clear = false; at = 7_000_000; by = "bob"; note = "" }

abbrev after_ann : Store
after_ann = (acknowledge "s1" ("d2" ∷ []) by_ann one_open).0

acknowledge_again_example :
    ((acknowledge "s1" ("d2" ∷ []) by_bob after_ann).0 ≡ after_ann)
    × ((acknowledge "s1" ("d2" ∷ []) by_bob after_ann).1.changed ≡ [])
acknowledge_again_example = acknowledge_again "s1" ("d2" ∷ []) by_ann by_bob one_open refl

wanted_d2 : any (str_eq "d2") (wanted_devices ("d2" ∷ []) (open_rows "s1" one_open)) ≡ true
unfolding rows_by_device lock_open_alerts_of_site unique unique_from
wanted_d2 = refl

none_missing : (acknowledge "s1" ("d2" ∷ []) by_ann one_open).1.missing ≡ []
unfolding acknowledge acknowledge_each rows_by_device lock_open_alerts_of_site unique unique_from
none_missing = refl

acknowledge_settles_example :
    is_settled_row false
      (lookup "d2" (open_rows "s1" (acknowledge "s1" ("d2" ∷ []) by_ann one_open).0))
    ≡ true
acknowledge_settles_example =
    acknowledge_settles "s1" ("d2" ∷ []) by_ann one_open "d2" wanted_d2 none_missing
