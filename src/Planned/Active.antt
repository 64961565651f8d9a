-- ===== src/Planned/Active.antt =====
-- What `read_active` answers, and how long it stays true.
use mathlib.Core.List.{foldl}
use nautobot_maps.Prelude.{
  ◌||◌, any, insert, insert_by, contains, lookup-insert, str_eq, ℕ, ◌+◌, ◌*◌, ◌≤◌, ◌≡◌, refl, ap,
  ◌∙◌, Bool, true, false, not, ◌&&◌, List, [], ◌∷◌, Option, none, some, String, ltb, leb, arith,
  filter, sort_by, Dict, str_eq, contains, insert_by, ◌||◌, lookup-insert,
}
use nautobot_maps.Availability.Interval.{Time, microseconds}
use nautobot_maps.Planned.Window.{
  State, state, active, Window, is_active_row, ends_not_after, add_active, next_change_of,
  min_after, least, if_after, not_ended, read_active, cache_seconds, State, state,
}

-- The time is before the one given, if one is.
abbrev pub is_before : Time → Option Time → Bool
is_before t none = true
is_before t (some n) = ltb t n

is_before-least :
    (t : Time) (a b : Option Time) → is_before t (least a b) ≡ (is_before t a && is_before t b)
is_before-least t none b = refl
is_before-least t (some a) none = ground arith
is_before-least t (some a) (some b) = ground arith

-- Before the next change, no time of a window that is not ended passes.
module _ (time : Window → Time) (at t : Time) where
  passes : Window → Bool
  passes w = not_ended w && ltb at (time w) && leb (time w) t

  none_passes :
      (w : Window) (rows : List Window)
      → is_before t (min_after time at (w ∷ rows)) ≡ true
      → (passes w ≡ false) × (is_before t (min_after time at rows) ≡ true)
  unfolding passes
  none_passes w rows h =
      ground (arith, is_before-least t (if_after at (time w)) (min_after time at rows))

same_row :
    (at t : Time) (w : Window)
    → at ≤ t
    → passes (λ w. w.starts_at) at t w ≡ false
    → passes (λ w. w.ends_at) at t w ≡ false
    → is_active_row t w ≡ is_active_row at w
unfolding passes is_active_row
same_row at t w le s e = ground arith

same_rows :
    (at t : Time) (table : List Window)
    → at ≤ t
    → is_before t (min_after (λ w. w.starts_at) at table) ≡ true
    → is_before t (min_after (λ w. w.ends_at) at table) ≡ true
    → filter (is_active_row t) table ≡ filter (is_active_row at) table
same_rows at t [] le s e = refl
same_rows at t (w ∷ table) le s e = ground (
  arith,
  none_passes (λ w. w.starts_at) at t w table s,
  none_passes (λ w. w.ends_at) at t w table e,
  same_row at t w le,
  same_rows at t table le,
)

-- Until `next_change`, or for ever when there is none, `read_active` answers the same sites and
-- devices as at `at`.
pub read_active-stable :
    (table : List Window) (at t : Time)
    → at ≤ t
    → is_before t (read_active table at).next_change ≡ true
    → ((read_active table t).sites ≡ (read_active table at).sites)
      × ((read_active table t).devices ≡ (read_active table at).devices)
unfolding read_active next_change_of
read_active-stable table at t le h =
    let same =
      same_rows at t table le
        (ground (
          arith,
          is_before-least t (min_after (λ w. w.starts_at) at table)
              (min_after (λ w. w.ends_at) at table),
        ))
        (ground (
          arith,
          is_before-least t (min_after (λ w. w.starts_at) at table)
              (min_after (λ w. w.ends_at) at table),
        )) in
    (
      ap (λ rows. (foldl add_active ([], []) (sort_by ends_not_after rows)).0) same,
      ap (λ rows. (foldl add_active ([], []) (sort_by ends_not_after rows)).1) same,
    )

-- With a default of a second or more and a change that is not in the past, a cached answer lives at
-- least a second and no longer than the default, and it is gone at most one second after the change.
pub cache_seconds-bounds :
    (upcoming : Time) (default now : ℕ)
    → 1 ≤ default
    → now ≤ upcoming
    → (1 ≤ cache_seconds (some upcoming) default now)
      × (cache_seconds (some upcoming) default now ≤ default)
      × (now + cache_seconds (some upcoming) default now * microseconds ≤ upcoming + microseconds)
unfolding cache_seconds
cache_seconds-bounds upcoming default now d u = ground arith

module _ (p : Window → Bool) where
  any-insert_by :
      (w : Window) (rows : List Window)
      → any p (insert_by ends_not_after w rows) ≡ (p w || any p rows)
  any-insert_by w [] = refl
  any-insert_by w (v ∷ rows) = ground (arith, any-insert_by w rows)

  any-sort_by : (rows : List Window) → any p (sort_by ends_not_after rows) ≡ any p rows
  any-sort_by [] = refl
  any-sort_by (w ∷ rows) =
      any-insert_by w (sort_by ends_not_after rows) ∙ ap (λ b. p w || b) (any-sort_by rows)

  any-filter :
      (q : Window → Bool) (rows : List Window) → any p (filter q rows) ≡ any (λ w. q w && p w) rows
  any-filter q [] = refl
  any-filter q (w ∷ rows) = ground (arith, any-filter q rows)

-- A window of the whole site, or of the device.
abbrev pub of_site : String → Window → Bool
of_site s w = str_eq w.device_id "" && str_eq s w.site_id

abbrev pub of_device : String → Window → Bool
of_device d w = not (str_eq w.device_id "") && str_eq d w.device_id

contains-insert :
    (k j : String) (w : Window) (d : Dict Window)
    → contains j (insert k w d) ≡ (contains j d || str_eq j k)
contains-insert k j w d = ground (arith, lookup-insert k j w d)

contains-add_active :
    (j : String) (w : Window) (found : Dict Window × Dict Window)
    → (contains j (add_active found w).0 ≡ (contains j found.0 || of_site j w))
      × (contains j (add_active found w).1 ≡ (contains j found.1 || of_device j w))
unfolding add_active
contains-add_active j w found =
    ground (arith, contains-insert w.site_id j w found.0, contains-insert w.device_id j w found.1)

contains-foldl :
    (j : String) (rows : List Window) (found : Dict Window × Dict Window)
    → (contains j (foldl add_active found rows).0 ≡ (contains j found.0 || any (of_site j) rows))
      × (contains j (foldl add_active found rows).1
          ≡ (contains j found.1 || any (of_device j) rows))
contains-foldl j [] found = ground arith
contains-foldl j (w ∷ rows) found =
    ground (arith, contains-foldl j rows (add_active found w), contains-add_active j w found)

-- The state says that the window is active.
abbrev pub is_active : State → Bool
is_active active = true
is_active _ = false

is_active_row-state : (at : Time) (w : Window) → is_active_row at w ≡ is_active (state w at)
unfolding is_active_row state
is_active_row-state at w = ground arith

any-state :
    (p : Window → Bool) (at : Time) (rows : List Window)
    → any (λ w. is_active_row at w && p w) rows ≡ any (λ w. is_active (state w at) && p w) rows
any-state p at [] = refl
any-state p at (w ∷ rows) = ground (arith, any-state p at rows, is_active_row-state at w)

any-active :
    (p : Window → Bool) (at : Time) (rows : List Window)
    → any p (sort_by ends_not_after (filter (is_active_row at) rows))
      ≡ any (λ w. is_active (state w at) && p w) rows
any-active p at rows =
    any-sort_by p (filter (is_active_row at) rows)
    ∙ any-filter p (is_active_row at) rows
    ∙ any-state p at rows

-- `read_active` has a site exactly when a window of the
-- whole site is in the state "active", and a device exactly when one of the device is.
pub read_active-contains :
    (table : List Window) (at : Time) (j : String)
    → (contains j (read_active table at).sites
        ≡ any (λ w. is_active (state w at) && of_site j w) table)
      × (contains j (read_active table at).devices
          ≡ any (λ w. is_active (state w at) && of_device j w) table)
unfolding read_active
read_active-contains table at j =
    let (sites, devices) =
      contains-foldl j (sort_by ends_not_after (filter (is_active_row at) table)) ([], []) in
    (sites ∙ any-active (of_site j) at table, devices ∙ any-active (of_device j) at table)
