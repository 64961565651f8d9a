-- ===== src/Tests/Tenants.antt =====
-- The theorems on tenants at a site with one device of each of two tenants.
use nautobot_maps.Prelude.{
  ◌+◌, ◌≡◌, refl, true, false, [], ◌∷◌, ◌++◌, map, filter, length, if◌then◌else◌,
}
use nautobot_maps.Level.{unset, medium, maintenance, level_eq}
use nautobot_maps.Text.{text}
use nautobot_maps.Incidents.Since.{missing, stamp}
use nautobot_maps.Alerts.Device.{Settings, is_down}
use nautobot_maps.Alerts.Tenants.{Seen, TenantSite, tenant_alert, theirs, tenant_devices}
use nautobot_maps.Alerts.TenantView.{listed_for, tenant_alert-kinds}
use nautobot_maps.Alerts.TenantList.{
  may_see, counted_entry, pending_entry, maintenance_entry, tenant_devices-own,
}

abbrev router : Seen
router = record {
  handle = 1;
  device = record {
    id = "d1";
    name = "rt-1";
    status = text "Offline";
    role = text "Router";
    primary_ip = text "10.0.0.1";
    criticality = unset;
    wireless = false;
  };
  tenant = text "Acme";
  vc_id = "";
  vc_name = "";
  webhook_since = missing;
  down_source = "nautobot";
  last_updated = missing;
  first_seen_down_at = stamp 1_000_000;
}

abbrev camera : Seen
camera = record router { handle = 2; tenant = text "Other" }

abbrev site : TenantSite
site = record {
  devices = router ∷ camera ∷ [];
  pending_devices = record router { handle = 3 } ∷ [];
  maintenance_devices = record router { handle = 4 } ∷ [];
  in_site_window = false;
  checked_at = 9_000_000;
  location_type = [];
  overrides = [];
  tier = [];
}

abbrev cfg : Settings
cfg = record {
  critical_percent = 100;
  medium_percent = 50;
  wireless_ap_level = medium;
  tier_device_level = [];
  criticality_rules = [];
  env_core_keywords = [];
}

tenant_devices-own_example :
    let sees = filter (may_see [] (text "ACME" ∷ []) (text "acme")) in
    listed_for (text "acme") (tenant_devices true [] (text "ACME" ∷ []) site []) ≡ (
      if true
      then map (counted_entry site []) (sees site.devices)
        ++ (map (pending_entry site []) (sees site.pending_devices)
            ++ map (maintenance_entry []) (sees site.maintenance_devices))
      else [])
tenant_devices-own_example =
    tenant_devices-own true [] (text "ACME" ∷ []) site [] (text "acme") refl refl refl

tenant_alert-kinds_example :
    let a = tenant_alert cfg [] site (text "router" ∷ []) in
    (a.kinds.access_point_count + a.kinds.network_device_count ≡ a.device_count)
    × (a.kinds.down_access_point_count + a.kinds.down_network_device_count ≡ (
        if level_eq a.alert_level maintenance
        then 0
        else length
            (filter (λ (d : Seen). is_down d.device) (theirs (text "router" ∷ []) site.devices))))
tenant_alert-kinds_example = tenant_alert-kinds cfg [] site (text "router" ∷ [])
