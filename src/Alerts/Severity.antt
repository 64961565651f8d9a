-- ===== src/Alerts/Severity.antt =====
-- `compute_alert_level` and `_wired_level` of alerts_service.py. A reason is kept as the facts that
-- its text is written from.
use nautobot_maps.Prelude.{
  ℕ, ◌+◌, ◌*◌, Bool, true, false, not, ◌&&◌, List, [], ◌∷◌, ◌++◌, String, str_eq, Dict, ltb, leb,
  ◌==◌, if◌then◌else◌, length, filter, map,
}
use nautobot_maps.Level.{Level, unset, ok, no_data, low, medium, critical, rank, level_eq}
use nautobot_maps.Text.{Text}
use nautobot_maps.Alerts.Device.{
  Device, Settings, Source, is_down, device_level, get_critical_keywords,
}

pub data Reason : Type 0 where
  no_reason no_devices : Reason
  devices_down : Level → List String → List Source → Reason
  all_down : ℕ → Reason
  share_down : ℕ → ℕ → Reason
  access_points_down : ℕ → Reason

pub record Alert : Type 0 where
  pub level : Level
  pub reason : Reason
  pub wireless_only : Bool

abbrev pub alert : Level → Reason → Alert
alert level reason = record { level = level; reason = reason; wireless_only = false }

-- `device.get("name") or "Unknown"`
abbrev pub shown_name : Device → String
shown_name d = if str_eq d.name "" then "Unknown" else d.name

-- The loop's variables in `_wired_level`.
pub record Worst : Type 0 where
  pub down_count : ℕ
  pub level : Level
  pub names : List String
  pub sources : List Source

abbrev pub none_down : Worst
none_down = record { down_count = 0; level = unset; names = []; sources = [] }

-- A down device with its level and where that comes from; an empty level only counts.
unfoldable pub count_down : Worst → Device → Level × Source → Worst
count_down w d (level, source) =
    let better = ltb (rank w.level) (rank level) in
    let names : List String = if better then [] else w.names in
    let sources : List Source = if better then [] else w.sources in
    let listed = leb (rank w.level) (rank level) in
    if level_eq level unset then record w { down_count = w.down_count + 1 } else record {
      down_count = w.down_count + 1;
      level = if better then level else w.level;
      names = if listed then names ++ shown_name d ∷ [] else names;
      sources = if listed then sources ++ source ∷ [] else sources;
    }

-- One round of the loop: `continue` for a device that is not down.
unfoldable pub next_worst : Worst → Device → Level × Source → Worst
unfolding count_down
next_worst w d o = if is_down d then count_down w d o else w

unfoldable pub worst_of : (Device → Level × Source) → Worst → List Device → Worst
unfolding next_worst
worst_of level_of w [] = w
worst_of level_of w (d ∷ devices) = worst_of level_of (next_worst w d (level_of d)) devices

-- The level that the share of devices down gives.
unfoldable pub share_level : Settings → ℕ → ℕ → Level
share_level cfg down_count total =
    if leb (total * cfg.critical_percent) (down_count * 100)
    then critical
    else if ltb (total * cfg.medium_percent) (down_count * 100)
    then medium
    else low

-- What `_wired_level` answers after its loop.
unfoldable pub judge : Settings → ℕ → Worst → Alert
unfolding share_level
judge cfg total w =
    let share = share_level cfg w.down_count total in
    if level_eq w.level critical
    then alert critical (devices_down critical w.names w.sources)
    else if w.down_count == total
    then alert critical (all_down total)
    else if w.down_count == 0
    then alert ok no_reason
    else if ltb (rank share) (rank w.level)
    then alert w.level (devices_down w.level w.names w.sources)
    else alert share (share_down w.down_count total)

unfoldable pub wired_level : Settings → List Device → List Text → Dict Bool → Text → Alert
unfolding judge worst_of
wired_level cfg devices keywords overrides tier =
    judge cfg (length devices)
      (worst_of (λ d. device_level cfg d keywords overrides tier) none_down devices)

-- A down access point with its level.
pub record DownAp : Type 0 where
  pub name : String
  pub level : Level
  pub source : Source

abbrev pub is_wireless_source : Source → Bool
is_wireless_source Source.wireless = true
is_wireless_source _ = false

unfoldable pub down_aps : (Device → Level × Source) → List Device → List DownAp
down_aps level_of [] = []
down_aps level_of (d ∷ devices) =
    let rest = down_aps level_of devices in
    let (level, source) = level_of d in
    if d.wireless && is_down d
    then record { name = shown_name d; level = level; source = source } ∷ rest
    else rest

-- The first with the highest rank, as Python's `max` by a key.
unfoldable pub worst_level : Level → List DownAp → Level
worst_level best [] = best
worst_level best (a ∷ own) =
    worst_level (if ltb (rank best) (rank a.level) then a.level else best) own

-- The access points that have a level of their own, set in Nautobot or marked critical.
unfoldable pub with_own : Alert → List DownAp → Alert
unfolding worst_level
with_own wired [] = wired
with_own wired (a ∷ own) =
    let worst = worst_level a.level own in
    let named = filter (λ (b : DownAp). level_eq b.level worst) (a ∷ own) in
    if ltb (rank wired.level) (rank worst)
    then alert worst (devices_down worst (map (λ b. b.name) named) (map (λ b. b.source) named))
    else wired

-- With down access points, `count` of them, and those among them that have a level of their own.
unfoldable pub join_own : Settings → Alert → ℕ → List DownAp → Alert
join_own cfg wired count (a ∷ own) = with_own wired (a ∷ own)
join_own cfg wired count [] =
    if level_eq wired.level ok
    then record {
      level = cfg.wireless_ap_level;
      reason = access_points_down count;
      wireless_only = true;
    }
    else wired

-- What `compute_alert_level` answers, from the level of the other devices and the down access points.
unfoldable pub join_aps : Settings → Alert → List DownAp → Alert
join_aps cfg wired [] = wired
join_aps cfg wired (a ∷ aps) =
    join_own cfg wired (length (a ∷ aps))
      (filter (λ (b : DownAp). not (is_wireless_source b.source)) (a ∷ aps))

-- The wired devices' alert; without one, "ok".
unfoldable pub wired_alert : Settings → List Device → List Text → Dict Bool → Text → Alert
unfolding wired_level
wired_alert cfg [] keywords overrides tier = alert ok no_reason
wired_alert cfg (d ∷ wired) keywords overrides tier =
    wired_level cfg (d ∷ wired) keywords overrides tier

-- With the overrides read, as the alert board passes them.
unfoldable pub compute_alert_level : Settings → List Device → Text → Dict Bool → Text → Alert
compute_alert_level cfg [] location_type overrides tier = alert no_data no_devices
compute_alert_level cfg (d ∷ devices) location_type overrides tier =
    let keywords = get_critical_keywords cfg location_type in
    let wired = filter (λ (e : Device). not e.wireless) (d ∷ devices) in
    join_aps cfg (wired_alert cfg wired keywords overrides tier)
      (down_aps (λ e. device_level cfg e keywords overrides tier) (d ∷ devices))
