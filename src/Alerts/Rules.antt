-- ===== src/Alerts/Rules.antt =====
-- The rules of a site's level: `_wired_level` and `compute_alert_level` against their description.
use nautobot_maps.Prelude.{
  ℕ, ◌<◌, max, ◌≡◌, refl, ◌∙◌, Bool, true, false, not, ◌&&◌, List, [], ◌∷◌, Dict, ltb, ◌==◌, arith,
  if◌then◌else◌, length, filter,
}
use nautobot_maps.Level.{Level, ok, rank, level_eq}
use nautobot_maps.Text.{Text}
use nautobot_maps.Alerts.Device.{Device, Settings, Source, device_level}
use nautobot_maps.Alerts.Severity.{
  Alert, Worst, none_down, worst_of, share_level, judge, wired_level, DownAp, is_wireless_source,
  worst_level, with_own, join_aps, wired_alert, join_own,
}
use nautobot_maps.Alerts.Worst.{down_total, max_rank, worst_of-rank, worst_of-count}

-- The rank that the rules give the wired devices: of the worst of the down devices' own levels and
-- the level of the share down; critical when all are down; nothing when none is.
abbrev pub rule_rank : Settings → (Device → Level × Source) → List Device → ℕ
rule_rank cfg level_of l =
    let down = down_total l in
    if down == length l
    then 3
    else if down == 0
    then 0
    else max (max_rank level_of l) (rank (share_level cfg down (length l)))

max_rank-zero :
    (level_of : Device → Level × Source) (l : List Device)
    → down_total l ≡ 0
    → max_rank level_of l ≡ 0
unfolding max_rank down_total
max_rank-zero level_of [] h = refl
max_rank-zero level_of (d ∷ l) h = ground (arith, max_rank-zero level_of l)

judge-rank :
    (cfg : Settings) (total : ℕ) (w : Worst)
    → (w.down_count ≡ 0 → rank w.level ≡ 0)
    → rank (judge cfg total w).level ≡ (
        if w.down_count == total
        then 3
        else if w.down_count == 0
        then 0
        else max (rank w.level) (rank (share_level cfg w.down_count total)))
unfolding judge
judge-rank cfg total w h = ground arith

module _ (cfg : Settings) (keywords : List Text) (overrides : Dict Bool) (tier : Text) where
  -- The level of each device under these settings.
  abbrev pub level_of : Device → Level × Source
  level_of d = device_level cfg d keywords overrides tier

  -- The level of a site's wired devices has the rank that the rules give: critical when every
  -- device is down, none when no device is, else the worst of the down devices' own levels and
  -- the level of the share down.
  pub wired_level-rank :
      (l : List Device)
      → rank (wired_level cfg l keywords overrides tier).level ≡ rule_rank cfg level_of l
  unfolding wired_level
  wired_level-rank l =
      judge-rank cfg (length l) (worst_of level_of none_down l) (λ e. ground (
        arith,
        worst_of-rank level_of none_down l,
        worst_of-count level_of none_down l,
        max_rank-zero level_of l,
      ))
      ∙ ground (arith, worst_of-rank level_of none_down l, worst_of-count level_of none_down l)

  judge-ok :
      (total : ℕ) (w : Worst)
      → 0 < total
      → (w.down_count ≡ 0 → rank w.level ≡ 0)
      → level_eq (judge cfg total w).level ok ≡ (w.down_count == 0)
  unfolding judge share_level
  judge-ok total w n h = ground arith

  -- With a device to judge, the answer is "ok" exactly when no wired device is down.
  pub wired_level-ok :
      (d : Device) (l : List Device)
      → level_eq (wired_level cfg (d ∷ l) keywords overrides tier).level ok
        ≡ (down_total (d ∷ l) == 0)
  unfolding wired_level
  wired_level-ok d l =
      judge-ok (length (d ∷ l)) (worst_of level_of none_down (d ∷ l)) (omega arith) (λ e. ground (
        arith,
        worst_of-rank level_of none_down (d ∷ l),
        worst_of-count level_of none_down (d ∷ l),
        max_rank-zero level_of (d ∷ l),
      ))
      ∙ ground (arith, worst_of-count level_of none_down (d ∷ l))

-- The highest rank of the access points' levels.
unfoldable pub aps_rank : List DownAp → ℕ
aps_rank [] = 0
aps_rank (a ∷ l) = max (rank a.level) (aps_rank l)

-- The down access points that have a level of their own.
abbrev pub with_own_level : List DownAp → List DownAp
with_own_level = filter (λ (b : DownAp). not (is_wireless_source b.source))

worst_level-rank :
    (best : Level) (l : List DownAp) → rank (worst_level best l) ≡ max (rank best) (aps_rank l)
unfolding worst_level aps_rank
worst_level-rank best [] = ground arith
worst_level-rank best (a ∷ l) =
    ground (arith, worst_level-rank (if ltb (rank best) (rank a.level) then a.level else best) l)

with_own-rank :
    (wired : Alert) (l : List DownAp)
    → (rank (with_own wired l).level ≡ max (rank wired.level) (aps_rank l))
      × ((with_own wired l).wireless_only ≡ true → wired.wireless_only ≡ true)
unfolding with_own aps_rank
with_own-rank wired [] = ground arith
with_own-rank wired (a ∷ l) = ground (arith, worst_level-rank a.level l)

-- Any access point is down.
abbrev pub some_down : List DownAp → Bool
some_down [] = false
some_down (a ∷ l) = true

join_own-rules :
    (cfg : Settings) (wired : Alert) (count : ℕ) (own : List DownAp)
    → wired.wireless_only ≡ false
    → ((join_own cfg wired count own).wireless_only
        ≡ (level_eq wired.level ok && not (some_down own)))
      × (rank (join_own cfg wired count own).level ≡ (
          if level_eq wired.level ok && not (some_down own)
          then rank cfg.wireless_ap_level
          else max (rank wired.level) (aps_rank own)))
unfolding join_own
join_own-rules cfg wired count [] h = unfold aps_rank in ground arith
join_own-rules cfg wired count (a ∷ own) h = ground (arith, with_own-rank wired (a ∷ own))

join_aps-rules :
    (cfg : Settings) (wired : Alert) (l : List DownAp)
    → wired.wireless_only ≡ false
    → ((join_aps cfg wired l).wireless_only
        ≡ (level_eq wired.level ok && some_down l && not (some_down (with_own_level l))))
      × (rank (join_aps cfg wired l).level ≡ (
          if level_eq wired.level ok && some_down l && not (some_down (with_own_level l))
          then rank cfg.wireless_ap_level
          else max (rank wired.level) (aps_rank (with_own_level l))))
unfolding join_aps
join_aps-rules cfg wired [] h = unfold aps_rank in ground arith
join_aps-rules cfg wired (a ∷ l) h =
    ground (arith, join_own-rules cfg wired (length (a ∷ l)) (with_own_level (a ∷ l)) h)

pub join_aps-found :
    (cfg : Settings) (wired : Alert) (l : List DownAp)
    → wired.wireless_only ≡ false
    → ((join_aps cfg wired l).wireless_only
        ≡ (level_eq wired.level ok && some_down l && not (some_down (with_own_level l))))
      × (rank (join_aps cfg wired l).level ≡ (
          if (join_aps cfg wired l).wireless_only
          then rank cfg.wireless_ap_level
          else max (rank wired.level) (aps_rank (with_own_level l))))
join_aps-found cfg wired l h =
    let (only, found) = join_aps-rules cfg wired l h in (only, rw only found)

pub wired_alert-not_wireless_only :
    (cfg : Settings) (l : List Device) (keywords : List Text) (overrides : Dict Bool) (tier : Text)
    → (wired_alert cfg l keywords overrides tier).wireless_only ≡ false
unfolding wired_alert wired_level judge
wired_alert-not_wireless_only cfg [] keywords overrides tier = refl
wired_alert-not_wireless_only cfg (d ∷ l) keywords overrides tier = ground arith
