-- ===== src/Availability/Maintenance.antt =====
-- What `read_maintenance` reads, by the rows of the table.
use mathlib.Core.List.{foldl}
use nautobot_maps.Prelude.{
  ◌≡◌, refl, ap, ◌∙◌, Bool, true, false, not, ◌&&◌, ◌||◌, List, [], ◌∷◌, ◌++◌, Option, none, some,
  String, str_eq, ltb, leb, arith, any, filter, get_list, get_list-append_to,
}
use nautobot_maps.Availability.Interval.{Time, Interval}
use nautobot_maps.Availability.Cover.{holds, covers}
use nautobot_maps.Availability.Reading.{
  WindowRow, window_in_period, window_interval, Windows, add_interval, add_window, no_windows,
  read_maintenance,
}

-- The window covers the instant: from its start until it ended or ends.
abbrev pub window_holds : Time → WindowRow → Bool
window_holds t w =
    leb w.starts_at t
    && ltb t w.ends_at
    && elim w.ended_at [ none ↦ true | some ended ↦ ltb t ended ]

-- Some window of the whole site covers the instant.
abbrev pub site_window_at : Time → String → List WindowRow → Bool
site_window_at t site_id =
    any (λ w. str_eq w.device_id "" && str_eq site_id w.site_id && window_holds t w)

-- Some window of the device covers the instant.
abbrev pub device_window_at : Time → String → List WindowRow → Bool
device_window_at t device_id =
    any (λ w. not (str_eq w.device_id "") && str_eq device_id w.device_id && window_holds t w)

-- The interval of an optional one holds the instant.
abbrev pub option_holds : Time → Option Interval → Bool
option_holds t none = false
option_holds t (some i) = holds t i

window_interval-holds :
    (t : Time) (w : WindowRow) → option_holds t (window_interval w) ≡ window_holds t w
unfolding window_interval
window_interval-holds t w = ground arith

pub covers-snoc :
    (t : Time) (l : List Interval) (i : Interval)
    → covers t (l ++ i ∷ []) ≡ (covers t l || holds t i)
unfolding covers
covers-snoc t [] i = ground arith
covers-snoc t (j ∷ l) i = ground (arith, covers-snoc t l i)

add_interval-sites :
    (t : Time) (j : String) (w : WindowRow) (o : Option Interval) (found : Windows)
    → covers t (get_list j (add_interval w o found).sites) ≡ (
        covers t (get_list j found.sites)
        || (str_eq w.device_id "" && str_eq j w.site_id && option_holds t o))
unfolding add_interval
add_interval-sites t j w none found = ground arith
add_interval-sites t j w (some i) found =
    ground (
      arith,
      get_list-append_to w.site_id j i found.sites,
      covers-snoc t (get_list j found.sites) i,
    )

add_interval-devices :
    (t : Time) (j : String) (w : WindowRow) (o : Option Interval) (found : Windows)
    → covers t (get_list j (add_interval w o found).devices) ≡ (
        covers t (get_list j found.devices)
        || (not (str_eq w.device_id "") && str_eq j w.device_id && option_holds t o))
unfolding add_interval
add_interval-devices t j w none found = ground arith
add_interval-devices t j w (some i) found = ground (
  arith,
  get_list-append_to w.device_id j i found.devices,
  covers-snoc t (get_list j found.devices) i,
)

add_window-sites :
    (t : Time) (j : String) (w : WindowRow) (found : Windows)
    → covers t (get_list j (add_window found w).sites) ≡ (
        covers t (get_list j found.sites)
        || (str_eq w.device_id "" && str_eq j w.site_id && window_holds t w))
unfolding add_window
add_window-sites t j w found =
    add_interval-sites t j w (window_interval w) found
    ∙ ap
        (λ b.
          covers t (get_list j found.sites) || (str_eq w.device_id "" && str_eq j w.site_id && b))
        (window_interval-holds t w)

foldl-sites :
    (t : Time) (j : String) (rows : List WindowRow) (found : Windows)
    → covers t (get_list j (foldl add_window found rows).sites)
      ≡ (covers t (get_list j found.sites) || site_window_at t j rows)
foldl-sites t j [] found = ground arith
foldl-sites t j (w ∷ rows) found =
    ground (arith, foldl-sites t j rows (add_window found w), add_window-sites t j w found)

add_window-devices :
    (t : Time) (j : String) (w : WindowRow) (found : Windows)
    → covers t (get_list j (add_window found w).devices) ≡ (
        covers t (get_list j found.devices)
        || (not (str_eq w.device_id "") && str_eq j w.device_id && window_holds t w))
unfolding add_window
add_window-devices t j w found =
    add_interval-devices t j w (window_interval w) found
    ∙ ap
        (λ b.
          covers t (get_list j found.devices)
          || (not (str_eq w.device_id "") && str_eq j w.device_id && b))
        (window_interval-holds t w)

foldl-devices :
    (t : Time) (j : String) (rows : List WindowRow) (found : Windows)
    → covers t (get_list j (foldl add_window found rows).devices)
      ≡ (covers t (get_list j found.devices) || device_window_at t j rows)
foldl-devices t j [] found = ground arith
foldl-devices t j (w ∷ rows) found =
    ground (arith, foldl-devices t j rows (add_window found w), add_window-devices t j w found)

-- A window that covers an instant of the period is one that the query selects.
in_period-holds :
    (t start end : Time) (w : WindowRow)
    → (leb start t && ltb t end) ≡ true
    → window_holds t w ≡ true
    → window_in_period start end w ≡ true
unfolding window_in_period
in_period-holds t start end w p h = ground arith

site_window_at-filter :
    (t start end : Time) (j : String) (rows : List WindowRow)
    → (leb start t && ltb t end) ≡ true
    → site_window_at t j (filter (window_in_period start end) rows) ≡ site_window_at t j rows
site_window_at-filter t start end j [] p = refl
site_window_at-filter t start end j (w ∷ rows) p =
    ground (arith, in_period-holds t start end w p, site_window_at-filter t start end j rows p)

device_window_at-filter :
    (t start end : Time) (j : String) (rows : List WindowRow)
    → (leb start t && ltb t end) ≡ true
    → device_window_at t j (filter (window_in_period start end) rows) ≡ device_window_at t j rows
device_window_at-filter t start end j [] p = refl
device_window_at-filter t start end j (w ∷ rows) p =
    ground (arith, in_period-holds t start end w p, device_window_at-filter t start end j rows p)

-- An instant of the period is in the site's maintenance, as read, exactly when some row of the
-- table says so: a window of the whole site that began by then and had not ended, early or as
-- planned.
pub read_maintenance-sites :
    (t start end : Time) (j : String) (table : List WindowRow)
    → (leb start t && ltb t end) ≡ true
    → covers t (get_list j (read_maintenance table start end).sites) ≡ site_window_at t j table
unfolding read_maintenance covers
read_maintenance-sites t start end j table p =
    foldl-sites t j (filter (window_in_period start end) table) no_windows
    ∙ site_window_at-filter t start end j table p

-- An instant of the period is in a device's own maintenance, as read, exactly when some row of the
-- table says so: a window of that device that began by then and had not ended, early or as planned.
pub read_maintenance-devices :
    (t start end : Time) (j : String) (table : List WindowRow)
    → (leb start t && ltb t end) ≡ true
    → covers t (get_list j (read_maintenance table start end).devices) ≡ device_window_at t j table
unfolding read_maintenance covers
read_maintenance-devices t start end j table p =
    foldl-devices t j (filter (window_in_period start end) table) no_windows
    ∙ device_window_at-filter t start end j table p
