-- ===== src/Alerts/Device.antt =====
-- A device as alerts_service.py reads it, and which devices count: status exclusion, the monitored
-- test, the core role keywords, and the level that a device gives its site.
use nautobot_maps.Prelude.{
  ℕ, Bool, true, false, not, ◌&&◌, ◌||◌, List, [], ◌∷◌, none, some, String, Dict, lookup, ltb, any,
  if◌then◌else◌,
}
use nautobot_maps.Level.{Level, unset, low, medium, critical, rank}
use nautobot_maps.Text.{Text, text, is_empty, lower, strip, is_in, has_part, lookup_text}

-- A key that is missing is "", and for `wireless` false.
pub record Device : Type 0 where
  pub id : String
  pub name : String
  pub status : Text
  pub role : Text
  pub primary_ip : Text
  pub criticality : Level
  pub wireless : Bool

-- The settings that the levels read.
pub record Settings : Type 0 where
  pub critical_percent : ℕ
  pub medium_percent : ℕ
  pub wireless_ap_level : Level
  pub tier_device_level : List (Text × Level)
  pub criticality_rules : List (Text × List Text)
  pub env_core_keywords : List Text

abbrev pub null_keyword : Text
null_keyword = text "null"

unfoldable pub status_is_excluded : Text → List Text → Bool
unfolding strip lower
status_is_excluded status excluded =
    let normalized = lower (strip status) in
    if is_empty normalized then is_in null_keyword excluded else is_in normalized excluded

abbrev pub down_statuses : List Text
down_statuses = text "offline" ∷ text "failed" ∷ text "decommissioning" ∷ text "flapping" ∷ []

-- `(device.get("status") or "").lower().strip() in DOWN_STATUSES`
unfoldable pub is_down : Device → Bool
unfolding strip lower
is_down d = is_in (strip (lower d.status)) down_statuses

unfoldable pub device_has_primary_ip : Device → Bool
unfolding strip
device_has_primary_ip d = not (is_empty (strip d.primary_ip))

unfoldable pub is_monitored : Device → Bool
unfolding device_has_primary_ip
is_monitored d = device_has_primary_ip d || d.wireless

unfoldable pub get_critical_keywords : Settings → Text → List Text
unfolding lower
get_critical_keywords cfg location_type =
    if is_empty location_type
    then cfg.env_core_keywords
    else elim (lookup_text (lower location_type) cfg.criticality_rules) [
      | some keywords ↦ keywords
      | none ↦ elim (lookup_text (text "default") cfg.criticality_rules) [
        | some keywords ↦ keywords
        | none ↦ cfg.env_core_keywords
      ]
    ]

-- `any(keyword in role for keyword in core_keywords)`, on the lower-cased role.
unfoldable pub has_core_role : Device → List Text → Bool
unfolding lower has_part
has_core_role d keywords = any (λ keyword. has_part keyword (lower d.role)) keywords

unfoldable pub is_core_device : Device → List Text → Dict Bool → Bool
unfolding has_core_role
is_core_device d keywords overrides = elim (lookup d.id overrides) [
  | some marked ↦ marked
  | none ↦ has_core_role d keywords
]

-- The loop of `down_core_devices`, with the overrides read.
unfoldable pub down_core_devices : List Device → List Text → Dict Bool → List Device
unfolding is_core_device is_down
down_core_devices [] keywords overrides = []
down_core_devices (d ∷ devices) keywords overrides =
    let rest = down_core_devices devices keywords overrides in
    if is_down d && is_core_device d keywords overrides then d ∷ rest else rest

-- Where a device's level comes from; `unknown` is "".
pub data Source : Type 0 where
  unknown nautobot override role tier wireless : Source

-- `level in settings.DEVICE_LEVELS`
abbrev pub is_device_level : Level → Bool
is_device_level critical = true
is_device_level medium = true
is_device_level low = true
is_device_level _ = false

unfoldable pub tier_device_level : Settings → Text → Level
unfolding strip lower
tier_device_level cfg t = elim (lookup_text (lower (strip t)) cfg.tier_device_level) [
  | some l ↦ l
  | none ↦ unset
]

-- The level of a device that no wireless controller watches, without its Nautobot field.
unfoldable pub own_level : Device → List Text → Dict Bool → Level × Source
unfolding has_core_role
own_level d keywords overrides = elim (lookup d.id overrides) [
  | some true ↦ (critical, Source.override)
  | some false ↦ (unset, Source.unknown)
  | none ↦ if has_core_role d keywords then (critical, Source.role) else (unset, Source.unknown)
]

-- `override_map.get(device_id)`, as a test.
abbrev pub marked_critical : String → Dict Bool → Bool
marked_critical id overrides = elim (lookup id overrides) [ some b ↦ b | none ↦ false ]

unfoldable pub device_level : Settings → Device → List Text → Dict Bool → Text → Level × Source
unfolding own_level tier_device_level
device_level cfg d keywords overrides t =
    if is_device_level d.criticality
    then (d.criticality, Source.nautobot)
    else if d.wireless
    then (if marked_critical d.id overrides
        then (critical, Source.override)
        else (cfg.wireless_ap_level, Source.wireless))
    else (let own = own_level d keywords overrides in
        let tier_level = tier_device_level cfg t in
        if ltb (rank own.0) (rank tier_level) then (tier_level, Source.tier) else own)
