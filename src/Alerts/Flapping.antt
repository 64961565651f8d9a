-- ===== src/Alerts/Flapping.antt =====
-- `next_device_state` over many builds: what every stored state satisfies, and when flapping ends.
use nautobot_maps.Prelude.{
  ℕ, ◌≤◌, ◌<◌, ◌≡◌, refl, Bool, true, false, List, [], ◌∷◌, ◌++◌, Option, none, some, String, arith,
  length, all, any, ◌∙◌,
}
use nautobot_maps.Availability.Interval.{Time}
use nautobot_maps.Alerts.DeviceState.{
  DeviceRow, is_recent, recent, is_some, stored_or_steady, next_changes, next_flapping,
  next_device_state, state_since, row_to_keep, no_times,
}

all-recent : (now : Time) (l : List Time) → all (is_recent now) (recent l now) ≡ true
unfolding recent
all-recent now [] = refl
all-recent now (t ∷ l) = ground (arith, all-recent now l)

-- What is kept of a device after the build at `now`, with FLAP_CHANGES `flap`.
pub record IsKept (flap : ℕ) (now : Time) (r : DeviceRow) : Type 0 where
  pub changes_recent : all (is_recent now) r.changes ≡ true
  pub flapping_has_changes : is_some r.flapping_since ≡ true → 0 < length r.changes
  pub many_changes_flap : 0 < flap → flap ≤ length r.changes → is_some r.flapping_since ≡ true
  pub up_has_changes : r.down ≡ false → 0 < length r.changes

abbrev pub KeptOption : ℕ → Time → Option DeviceRow → Type 0
KeptOption flap now none = Unit
KeptOption flap now (some r) = IsKept flap now r

changes-recent :
    (flap : ℕ) (previous : DeviceRow) (down : Bool) (since now : Time)
    → all (is_recent now) (next_changes flap previous down since now) ≡ true
unfolding next_changes
changes-recent flap previous down since now =
    ground (arith, all-recent now previous.changes, all-recent now (previous.changes ++ since ∷ []))

no_flapping_without_changes :
    (flap : ℕ) (before : Option Time) (now : Time) → next_flapping flap before [] now ≡ none
unfolding next_flapping
no_flapping_without_changes flap before now = ground arith

row_to_keep-IsKept :
    (flap : ℕ) (before : Option Time) (now : Time) (down : Bool) (since : Time)
    (changes : List Time) (source : String)
    → all (is_recent now) changes ≡ true
    → KeptOption flap now
        (row_to_keep down since changes (next_flapping flap before changes now) source)
unfolding row_to_keep next_flapping
row_to_keep-IsKept flap before now true since changes source h = record {
  changes_recent = h;
  flapping_has_changes = ground arith;
  many_changes_flap = ground arith;
  up_has_changes = cc;
}
row_to_keep-IsKept flap before now false since [] source h =
    rw (no_flapping_without_changes flap before now) tt
row_to_keep-IsKept flap before now false since (t ∷ changes) source h = record {
  changes_recent = h;
  flapping_has_changes = ground arith;
  many_changes_flap = ground arith;
  up_has_changes = ground arith;
}

-- Whatever was stored before, the row after a build has only changes of the last half hour, is
-- flapping only if it has one, is flapping if it has FLAP_CHANGES of them (when that is set), and a
-- device that is up has a row only while it has one.
pub next_device_state-IsKept :
    (flap : ℕ) (stored : Option DeviceRow) (down : Bool) (since : Option Time) (now : Time)
    (source : String)
    → KeptOption flap now (next_device_state flap stored down since now source)
unfolding next_device_state
next_device_state-IsKept flap stored down since now source =
    row_to_keep-IsKept flap (stored_or_steady stored).flapping_since now down
      (state_since stored down since now)
      (next_changes flap (stored_or_steady stored) down (state_since stored down since now) now)
      source
      (changes-recent flap (stored_or_steady stored) down (state_since stored down since now) now)

recent-none : (now : Time) (l : List Time) → any (is_recent now) l ≡ false → recent l now ≡ []
unfolding recent
recent-none now [] h = refl
recent-none now (t ∷ l) h = ground (arith, recent-none now l)

recent-some :
    (now : Time) (l : List Time) → any (is_recent now) l ≡ true → no_times (recent l now) ≡ false
unfolding recent
recent-some now [] h = cc
recent-some now (t ∷ l) h = ground (arith, recent-some now l)

recent-some_append :
    (now : Time) (l m : List Time)
    → any (is_recent now) l ≡ true
    → no_times (recent (l ++ m) now) ≡ false
unfolding recent
recent-some_append now [] m h = cc
recent-some_append now (t ∷ l) m h = ground (arith, recent-some_append now l m)

-- A device that is up and stays up has no row any more once a whole window has passed since the
-- last of its changes, flapping or not.
pub next_device_state_settles :
    (flap : ℕ) (r : DeviceRow) (since : Option Time) (now : Time) (source : String)
    → r.down ≡ false
    → any (is_recent now) r.changes ≡ false
    → next_device_state flap (some r) false since now source ≡ none
unfolding next_device_state next_changes next_flapping row_to_keep
next_device_state_settles flap r since now source up old = ground (arith, recent-none now r.changes)

-- Since when the row says that the device is flapping.
abbrev pub flapping_of : Option DeviceRow → Option Time
flapping_of none = none
flapping_of (some r) = r.flapping_since

changes_stay :
    (flap : ℕ) (r : DeviceRow) (down : Bool) (since now : Time)
    → 0 < flap
    → any (is_recent now) r.changes ≡ true
    → no_times (next_changes flap r down since now) ≡ false
unfolding next_changes
changes_stay flap r down since now h a =
    ground (arith, recent-some now r.changes, recent-some_append now r.changes (since ∷ []))

flapping_stays :
    (flap : ℕ) (f now : Time) (changes : List Time)
    → 0 < flap
    → no_times changes ≡ false
    → next_flapping flap (some f) changes now ≡ some f
unfolding next_flapping
flapping_stays flap f now changes h n = ground arith

flapping_of-row_to_keep :
    (down : Bool) (since : Time) (changes : List Time) (flapping : Option Time) (source : String)
    → flapping_of (row_to_keep down since changes flapping source) ≡ flapping
unfolding row_to_keep
flapping_of-row_to_keep down since changes flapping source = ground arith

-- When FLAP_CHANGES is set, and while one of its changes is in the window, a flapping device stays
-- flapping, since when it was, whether it is up or down.
pub next_device_state_stays_flapping :
    (flap : ℕ) (r : DeviceRow) (f : Time) (down : Bool) (since : Option Time) (now : Time)
    (source : String)
    → 0 < flap
    → r.flapping_since ≡ some f
    → any (is_recent now) r.changes ≡ true
    → flapping_of (next_device_state flap (some r) down since now source) ≡ some f
unfolding next_device_state
next_device_state_stays_flapping flap r f down since now source h e a =
    flapping_of-row_to_keep down (state_since (some r) down since now)
      (next_changes flap r down (state_since (some r) down since now) now) _ source
    ∙ simp e (
        flapping_stays flap f now
          (next_changes flap r down (state_since (some r) down since now) now) h
          (changes_stay flap r down (state_since (some r) down since now) now h a))
