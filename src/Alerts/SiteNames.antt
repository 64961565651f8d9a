-- ===== src/Alerts/SiteNames.antt =====
-- Which devices the reason of a site's level names.
use nautobot_maps.Prelude.{ℕ, Bool, ◌&&◌, List, map, Option, none, some, String, Dict, ◌==◌, filter}
use nautobot_maps.Text.{Text}
use nautobot_maps.Alerts.Device.{Device, Settings, is_down}
use nautobot_maps.Alerts.Severity.{Reason, devices_down, Worst, shown_name}
use nautobot_maps.Alerts.SiteRules.{own_rank}

-- The devices that a reason names, if it is about single devices.
abbrev pub reason_names : Reason → Option (List String)
reason_names (devices_down level names sources) = some names
reason_names _ = none

module _ (cfg : Settings) (keywords : List Text) (overrides : Dict Bool) (tier : Text) where
  -- The names of the down devices whose own level has that rank.
  abbrev pub names_of_rank : ℕ → List Device → List String
  names_of_rank r l =
      map shown_name (filter (λ d. is_down d && own_rank cfg keywords overrides tier d == r) l)
