-- ===== src/Tests/Alerts.antt =====
-- The alert theorems at a small site.
use nautobot_maps.Prelude.{
  ◌≡◌, refl, true, false, not, ◌&&◌, List, [], ◌∷◌, max, if◌then◌else◌, Bool, Dict, length, filter,
  ◌==◌, any,
}
use nautobot_maps.Level.{unset, low, medium, rank}
use nautobot_maps.Text.{text}
use nautobot_maps.Alerts.Device.{is_down, device_level, get_critical_keywords, Device, Settings}
use nautobot_maps.Alerts.Severity.{join_aps, join_own, down_aps, wired_alert, compute_alert_level}
use nautobot_maps.Alerts.SiteRules.{
  is_wired_down, is_ap_down, is_own_ap_down, wired_rank, worst_rank, compute_alert_level-rules,
}

abbrev settings : Settings
settings = record {
  critical_percent = 50;
  medium_percent = 20;
  wireless_ap_level = low;
  tier_device_level = (text "gold", medium) ∷ [];
  criticality_rules = [];
  env_core_keywords = text "core" ∷ [];
}

abbrev switch_down : Device
switch_down = record {
  id = "s1";
  name = "sw1";
  status = text " Offline ";
  role = text "Access";
  primary_ip = text "10.0.0.1";
  criticality = unset;
  wireless = false;
}

abbrev switch_up : Device
switch_up = record switch_down { id = "s2"; name = "sw2"; status = text "active" }

abbrev ap_down : Device
ap_down = record switch_down { id = "a1"; name = "ap1"; wireless = true }

abbrev site : List Device
site = switch_down ∷ switch_up ∷ switch_up ∷ []

abbrev no_overrides : Dict Bool
no_overrides = []

run-compute_alert_level :
    (compute_alert_level settings
      (switch_up ∷ ap_down ∷ [])
      (text "")
      no_overrides
      (text "gold")).wireless_only
    ≡ true
unfolding compute_alert_level join_aps join_own down_aps wired_alert is_down device_level
    get_critical_keywords
run-compute_alert_level = refl

compute_alert_level-rules_example :
    let found =
      compute_alert_level settings
        (switch_up ∷ ap_down ∷ [])
        (text "")
        no_overrides
        (text "gold") in
    let site = switch_up ∷ ap_down ∷ [] in
    let keywords = get_critical_keywords settings (text "") in
    let is_own = is_own_ap_down settings keywords no_overrides (text "gold") in
    (found.wireless_only
      ≡ (length (filter is_wired_down site) == 0 && any is_ap_down site && not (any is_own site)))
    × (rank found.level ≡ (
        if found.wireless_only
        then rank settings.wireless_ap_level
        else max
            (wired_rank settings keywords no_overrides (text "gold") site)
            (worst_rank settings keywords no_overrides (text "gold") is_own site)))
compute_alert_level-rules_example =
    compute_alert_level-rules settings switch_up (ap_down ∷ []) (text "") no_overrides (text "gold")
