-- ===== src/Alerts/SiteRules.antt =====
-- The level of a site beside its rules, written out device by device.
use nautobot_maps.Prelude.{
  ℕ, ◌*◌, max, ◌≡◌, refl, ◌∙◌, Bool, true, false, not, ◌&&◌, ◌||◌, List, [], ◌∷◌, Option, none,
  some, Dict, lookup, ltb, leb, ◌==◌, arith, if◌then◌else◌, length, filter, any, ap,
}
use nautobot_maps.Level.{Level, ok, rank, level_eq}
use nautobot_maps.Text.{Text}
use nautobot_maps.Alerts.Device.{
  Device, Settings, Source, is_down, has_core_role, tier_device_level, device_level,
  get_critical_keywords,
}
use nautobot_maps.Alerts.Severity.{
  share_level, down_aps, wired_alert, compute_alert_level, is_wireless_source, join_aps,
}
use nautobot_maps.Alerts.Worst.{down_total, max_rank}
use nautobot_maps.Alerts.Rules.{
  wired_level-rank, wired_level-ok, aps_rank, with_own_level, some_down, join_aps-found,
  wired_alert-not_wireless_only,
}

-- Critical by the override, or without one by the role.
abbrev pub critical_rank : Option Bool → Bool → ℕ
critical_rank (some true) core = 3
critical_rank (some false) core = 0
critical_rank none core = if core then 3 else 0

-- The share of the devices that are down, in percent of all, against the two settings.
abbrev pub share_rank : Settings → ℕ → ℕ → ℕ
share_rank cfg down total =
    if leb (total * cfg.critical_percent) (down * 100)
    then 3
    else if ltb (total * cfg.medium_percent) (down * 100)
    then 2
    else 1

-- A wired device that is down.
abbrev pub is_wired_down : Device → Bool
is_wired_down d = not d.wireless && is_down d

-- An access point that is down.
abbrev pub is_ap_down : Device → Bool
is_ap_down d = d.wireless && is_down d

module _ (cfg : Settings) (keywords : List Text) (overrides : Dict Bool) (tier : Text) where
  -- How bad the device's own level is: the one set in Nautobot, else critical for an access point that
  -- is marked so, else for a wired device the worse of critical by override or role and of its tier's.
  abbrev pub own_rank : Device → ℕ
  own_rank d =
      if ltb 0 (rank d.criticality)
      then rank d.criticality
      else if d.wireless
      then critical_rank (lookup d.id overrides) false
      else max (critical_rank (lookup d.id overrides) (has_core_role d keywords))
          (rank (tier_device_level cfg tier))

  -- A down access point with a level set in Nautobot or marked critical.
  abbrev pub is_own_ap_down : Device → Bool
  is_own_ap_down d =
      is_ap_down d
      && (ltb 0 (rank d.criticality) || ltb 0 (critical_rank (lookup d.id overrides) false))

  -- The worst of the own levels of the devices that pass the test.
  abbrev pub worst_rank : (Device → Bool) → List Device → ℕ
  worst_rank p [] = 0
  worst_rank p (d ∷ l) = max (if p d then own_rank d else 0) (worst_rank p l)

  -- Nothing when no wired device is down, critical when all are, else the worse of the down ones' own
  -- levels and of their share.
  abbrev pub wired_rank : List Device → ℕ
  wired_rank l =
      let down = length (filter is_wired_down l) in
      let total = length (filter (λ (d : Device). not d.wireless) l) in
      if down == 0
      then 0
      else if down == total
      then 3
      else max (worst_rank is_wired_down l) (share_rank cfg down total)

  abbrev pub found_level : Device → Level × Source
  found_level d = device_level cfg d keywords overrides tier

  pub found_level-wired : (d : Device) → d.wireless ≡ false → rank (found_level d).0 ≡ own_rank d
  unfolding device_level
  found_level-wired d h = by_mark (lookup d.id overrides) refl
    where
      by_mark : (o : Option Bool) → lookup d.id overrides ≡ o → rank (found_level d).0 ≡ own_rank d
      by_mark none e = ground arith
      by_mark (some true) e = ground arith
      by_mark (some false) e = ground arith

  found_level-ap :
      (d : Device)
      → d.wireless ≡ true
      → (is_wireless_source (found_level d).1
          ≡ not (ltb 0 (rank d.criticality) || ltb 0 (critical_rank (lookup d.id overrides) false)))
        × (is_wireless_source (found_level d).1 ≡ false → rank (found_level d).0 ≡ own_rank d)
  unfolding device_level
  found_level-ap d h = by_mark (lookup d.id overrides) refl
    where
      by_mark :
          (o : Option Bool)
          → lookup d.id overrides ≡ o
          → (is_wireless_source (found_level d).1
              ≡ not (
                  ltb 0 (rank d.criticality)
                  || ltb 0 (critical_rank (lookup d.id overrides) false)))
            × (is_wireless_source (found_level d).1 ≡ false → rank (found_level d).0 ≡ own_rank d)
      by_mark none e = ground arith
      by_mark (some true) e = ground arith
      by_mark (some false) e = ground arith

  down_total-wired :
      (l : List Device)
      → down_total (filter (λ (e : Device). not e.wireless) l) ≡ length (filter is_wired_down l)
  unfolding down_total
  down_total-wired [] = refl
  down_total-wired (d ∷ l) = ground (arith, down_total-wired l)

  max_rank-wired :
      (l : List Device)
      → max_rank found_level (filter (λ (e : Device). not e.wireless) l)
        ≡ worst_rank is_wired_down l
  unfolding max_rank
  max_rank-wired [] = refl
  max_rank-wired (d ∷ l) = ground (arith, max_rank-wired l, found_level-wired d)

  pub rank-share_level :
      (down total : ℕ) → rank (share_level cfg down total) ≡ share_rank cfg down total
  unfolding share_level
  rank-share_level down total = ground arith

  wired_alert-rank :
      (l : List Device)
      → rank (wired_alert cfg l keywords overrides tier).level ≡ (
          if down_total l == 0
          then 0
          else if down_total l == length l
          then 3
          else max (max_rank found_level l) (share_rank cfg (down_total l) (length l)))
  unfolding wired_alert
  wired_alert-rank [] = unfold down_total in refl
  wired_alert-rank (d ∷ l) =
      wired_level-rank cfg keywords overrides tier (d ∷ l)
      ∙ ground (arith, rank-share_level (down_total (d ∷ l)) (length (d ∷ l)))

  wired_alert-ok :
      (l : List Device)
      → level_eq (wired_alert cfg l keywords overrides tier).level ok ≡ (down_total l == 0)
  unfolding wired_alert
  wired_alert-ok [] = unfold down_total in refl
  wired_alert-ok (d ∷ l) = wired_level-ok cfg keywords overrides tier d l

  some_down-any : (l : List Device) → some_down (down_aps found_level l) ≡ any is_ap_down l
  unfolding down_aps
  some_down-any [] = refl
  some_down-any (d ∷ l) = ground (arith, some_down-any l)

  own_aps :
      (l : List Device)
      → (some_down (with_own_level (down_aps found_level l)) ≡ any is_own_ap_down l)
        × (aps_rank (with_own_level (down_aps found_level l)) ≡ worst_rank is_own_ap_down l)
  unfolding down_aps aps_rank
  own_aps [] = (refl, refl)
  own_aps (d ∷ l) = ground (arith, own_aps l, found_level-ap d)

  wired_alert-filter :
      (l : List Device)
      → let wired =
          wired_alert cfg (filter (λ (e : Device). not e.wireless) l) keywords overrides tier in
        (level_eq wired.level ok ≡ (length (filter is_wired_down l) == 0))
        × (rank wired.level ≡ wired_rank l)
  wired_alert-filter l =
      let wired = filter (λ (e : Device). not e.wireless) l in
      (
        wired_alert-ok wired ∙ ap (λ n. n == 0) (down_total-wired l),
        wired_alert-rank wired ∙ rw (down_total-wired l, max_rank-wired l) refl,
      )

  join_aps-site :
      (l : List Device)
      → let wired =
          wired_alert cfg (filter (λ (e : Device). not e.wireless) l) keywords overrides tier in
        let found = join_aps cfg wired (down_aps found_level l) in
        (found.wireless_only ≡ (
          length (filter is_wired_down l) == 0 && any is_ap_down l && not (any is_own_ap_down l)))
        × (rank found.level ≡ (
            if found.wireless_only
            then rank cfg.wireless_ap_level
            else max (wired_rank l) (worst_rank is_own_ap_down l)))
  join_aps-site l =
      let wired =
        wired_alert cfg (filter (λ (e : Device). not e.wireless) l) keywords overrides tier in
      let aps = down_aps found_level l in
      let (is_only, found) = join_aps-found cfg wired aps (
        wired_alert-not_wireless_only cfg (filter (λ (e : Device). not e.wireless) l) keywords
          overrides tier) in
      let (is_ok, wired_is) = wired_alert-filter l in
      let (some_own, own_is) = own_aps l in
      (is_only ∙ rw (is_ok, some_down-any l, some_own) refl, found ∙ rw (wired_is, own_is) refl)

-- A site's alert, when it has devices. It is "wireless only" exactly when no wired device is down, some
-- access point is, and no down access point has a level of its own, set in Nautobot or marked
-- critical; its level is then WIRELESS_AP_LEVEL. Else its level has the higher of two ranks. One is the
-- wired devices': none when none is down, critical when all are, else the worse of the down ones' own
-- levels (Nautobot's, else critical by override or role, or the tier's) and of the share that is down
-- in percent. The other is the worst of the down access points' own levels.
pub compute_alert_level-rules :
    (cfg : Settings) (d : Device) (devices : List Device) (location_type : Text)
    (overrides : Dict Bool) (tier : Text)
    → let found = compute_alert_level cfg (d ∷ devices) location_type overrides tier in
      let site = d ∷ devices in
      let keywords = get_critical_keywords cfg location_type in
      let is_own = is_own_ap_down cfg keywords overrides tier in
      (found.wireless_only
        ≡ (length (filter is_wired_down site) == 0 && any is_ap_down site && not (any is_own site)))
      × (rank found.level ≡ (
          if found.wireless_only
          then rank cfg.wireless_ap_level
          else max
              (wired_rank cfg keywords overrides tier site)
              (worst_rank cfg keywords overrides tier is_own site)))
unfolding compute_alert_level
compute_alert_level-rules cfg d devices location_type overrides tier =
    join_aps-site cfg (get_critical_keywords cfg location_type) overrides tier (d ∷ devices)
