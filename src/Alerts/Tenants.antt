-- ===== src/Alerts/Tenants.antt =====
-- What a tenant of a site is shown: `device_kinds`, `tenant_scoped_alerts`, `tenant_sees` and
-- `tenant_devices` of alerts_service.py. `casefold` is lower-casing, as for ASCII.
use nautobot_maps.Prelude.{
  ℕ, ◌+◌, ◌-◌, ◌/◌, max, Bool, true, false, not, ◌&&◌, ◌||◌, List, [], ◌∷◌, ◌++◌, map, Option, none,
  some, String, str_eq, ltb, ◌==◌, length, if◌then◌else◌, filter, any, Dict,
}
use nautobot_maps.Level.{Level, ok, no_data, maintenance, level_eq}
use nautobot_maps.Text.{Text, text_eq, is_empty, lower, strip, is_in, lookup_text}
use nautobot_maps.Availability.Interval.{Time, microseconds}
use nautobot_maps.Alerts.Device.{Device, Settings, is_down}
use nautobot_maps.Alerts.Severity.{Alert, alert, no_reason, compute_alert_level}
use nautobot_maps.Incidents.Since.{Stamp, missing, unreadable, stamp, BoardDevice, down_since}

-- A device of the board. `handle` stands for the object's identity.
pub record Seen : Type 0 where
  pub handle : ℕ
  pub device : Device
  pub tenant : Text
  pub vc_id : String
  pub vc_name : String
  pub webhook_since : Stamp
  pub down_source : String
  pub last_updated : Stamp
  pub first_seen_down_at : Stamp

abbrev pub board_device : Seen → BoardDevice
board_device d = record {
  id = d.device.id;
  name = d.device.name;
  status = d.device.status;
  wireless = d.device.wireless;
  webhook_since = d.webhook_since;
  down_source = d.down_source;
  last_updated = d.last_updated;
  first_seen_down_at = d.first_seen_down_at;
}

-- `(...).strip().casefold()`
unfoldable pub folded : Text → Text
unfolding strip lower
folded s = lower (strip s)

-- `wireless.is_access_point`
unfoldable pub is_access_point : List Text → Seen → Bool
unfolding folded
is_access_point roles d = is_in (folded d.device.role) roles

pub record Kinds : Type 0 where
  pub access_point_count : ℕ
  pub network_device_count : ℕ
  pub down_access_point_count : ℕ
  pub down_network_device_count : ℕ

unfoldable pub access_points : List Text → List Seen → ℕ
unfolding is_access_point
access_points roles devices =
    length (filter (λ d. d.device.wireless || is_access_point roles d) devices)

unfoldable pub device_kinds : List Text → List Seen → List Seen → Kinds
unfolding access_points
device_kinds roles counted down = record {
  access_point_count = access_points roles counted;
  network_device_count = length counted - access_points roles counted;
  down_access_point_count = access_points roles down;
  down_network_device_count = length down - access_points roles down;
}

-- The names of a site's tenants.
unfoldable pub names_of : List Text → List Text
unfolding folded
names_of tenants = map folded (filter (λ t. not (is_empty t)) tenants)

-- The devices with one of the roles.
unfoldable pub theirs : List Text → List Seen → List Seen
unfolding folded
theirs roles group = filter (λ d. is_in (folded d.device.role) roles) group

-- `device.get("first_seen_down_at") or down_since(device, checked_at)`, and the seconds since then,
-- from 0 on.
abbrev pub seconds_down : Time → Time → Stamp → ℕ
seconds_down checked_at since missing = (checked_at - since) / microseconds
seconds_down checked_at since unreadable = 0
seconds_down checked_at since (stamp t) = (checked_at - t) / microseconds

unfoldable pub longest_down : Time → List Seen → ℕ
longest_down checked_at [] = 0
longest_down checked_at (d ∷ devices) =
    max (seconds_down checked_at (down_since (board_device d) checked_at) d.first_seen_down_at)
      (longest_down checked_at devices)

-- A site of the board, as far as its tenants are concerned.
pub record TenantSite : Type 0 where
  pub devices : List Seen
  pub pending_devices : List Seen
  pub maintenance_devices : List Seen
  pub in_site_window : Bool
  pub checked_at : Time
  pub location_type : Text
  pub overrides : Dict Bool
  pub tier : Text

pub record TenantAlert : Type 0 where
  pub alert_level : Level
  pub wireless_only : Bool
  pub device_count : ℕ
  pub current_downtime_seconds : ℕ
  pub kinds : Kinds

-- The alert of the devices that count, or ok when some are only pending.
abbrev pub alert_of : Settings → TenantSite → List Seen → List Seen → Alert
alert_of cfg site [] [] = alert no_data no_reason
alert_of cfg site [] (p ∷ pending) = alert ok no_reason
alert_of cfg site (d ∷ active) pending =
    compute_alert_level cfg (map (λ (e : Seen). e.device) (d ∷ active)) site.location_type
      site.overrides site.tier

abbrev pub no_devices {ℓ} : {A : Type ℓ} → List A → Bool
no_devices [] = true
no_devices (a ∷ l) = false

unfoldable pub tenant_alert : Settings → List Text → TenantSite → List Text → TenantAlert
unfolding theirs is_down longest_down device_kinds compute_alert_level
tenant_alert cfg ap_roles site roles =
    let active = theirs roles site.devices in
    let pending = theirs roles site.pending_devices in
    let in_maintenance = theirs roles site.maintenance_devices in
    let matches = length active + length pending + length in_maintenance in
    let found = alert_of cfg site active pending in
    let planned =
      ltb 0 matches
      && (site.in_site_window || (not (no_devices in_maintenance) && no_devices active)) in
    let level = if planned then maintenance else found.level in
    let down = filter (λ (d : Seen). is_down d.device) active in
    record {
      alert_level = level;
      wireless_only = found.wireless_only && not (level_eq level maintenance);
      device_count = matches;
      current_downtime_seconds = longest_down site.checked_at down;
      kinds =
          device_kinds ap_roles (active ++ (pending ++ in_maintenance))
            (if level_eq level maintenance then [] else down);
    }

-- `scopes` gives the roles of each configured tenant.
unfoldable pub tenant_scoped_alerts :
    Settings
    → List Text
    → List (Text × List Text)
    → List Text
    → TenantSite
    → List (Text × TenantAlert)
unfolding names_of tenant_alert
tenant_scoped_alerts cfg ap_roles [] tenants site = []
tenant_scoped_alerts cfg ap_roles ((tenant, roles) ∷ scopes) tenants site =
    let rest = tenant_scoped_alerts cfg ap_roles scopes tenants site in
    if is_in tenant (names_of tenants)
    then (tenant, tenant_alert cfg ap_roles site roles) ∷ rest
    else rest

-- No roles are given for the tenant, or the role is one of them.
abbrev pub role_fits : Text → Option (List Text) → Bool
role_fits role none = true
role_fits role (some roles) = is_in role roles

-- Empty when no tenant may see the device.
unfoldable pub tenant_sees : Seen → List Text → List (Text × List Text) → Text
unfolding folded
tenant_sees d tenant_names scopes =
    let owner = folded d.tenant in
    if is_in owner tenant_names && role_fits (folded d.device.role) (lookup_text owner scopes)
    then owner
    else []

pub data ShownState : Type 0 where
  in_maintenance up : ShownState
  -- Since when.
  down : Stamp → ShownState

pub record Shown : Type 0 where
  pub name : String
  pub state : ShownState

abbrev pub or_since : Stamp → Time → Stamp
or_since missing at = stamp at
or_since s at = s

abbrev pub or_name : String → String → String
or_name a b = if str_eq a "" then b else a

unfoldable pub shown : TenantSite → List String → Seen → Shown
unfolding is_down
shown site stacks d = record {
  name =
      or_name (if any (str_eq d.vc_id) stacks then d.vc_name else "")
        (or_name d.device.name "Unknown");
  state =
      if site.in_site_window || any (λ (e : Seen). e.handle == d.handle) site.maintenance_devices
      then in_maintenance
      else if is_down d.device && any (λ (e : Seen). e.handle == d.handle) site.devices
      then down (or_since d.first_seen_down_at (down_since (board_device d) site.checked_at))
      else up;
}

-- `listed.setdefault(owner, []).append(entry)`
abbrev pub append_to_text {ℓ} :
    {A : Type ℓ} → Text → A → List (Text × List A) → List (Text × List A)
append_to_text k v [] = (k, v ∷ []) ∷ []
append_to_text k v ((j, l) ∷ d) =
    if text_eq k j then (j, l ++ (v ∷ [])) ∷ d else (j, l) ∷ append_to_text k v d

unfoldable pub list_devices :
    (Seen → Text) → (Seen → Shown) → List Seen → List (Text × List Shown) → List (Text × List Shown)
list_devices owner entry [] listed = listed
list_devices owner entry (d ∷ devices) listed =
    list_devices owner entry devices
      (if is_empty (owner d) then listed else append_to_text (owner d) (entry d) listed)

-- `status_page_tenant_devices` is the setting, `stacks` the ids of the stacks.
unfoldable pub tenant_devices :
    Bool → List (Text × List Text) → List Text → TenantSite → List String → List (Text × List Shown)
unfolding names_of tenant_sees shown list_devices
tenant_devices status_page_tenant_devices scopes tenants site stacks =
    if not status_page_tenant_devices
    then []
    else list_devices (λ d. tenant_sees d (names_of tenants) scopes) (shown site stacks)
        (site.devices ++ (site.pending_devices ++ site.maintenance_devices)) []
