-- ===== src/Notify/Messages.antt =====
-- The latest message about a site, which `enqueue_change` reads and adds to.
use nautobot_maps.Prelude.{
  ◌+◌, ◌≤◌, ◌≡◌, refl, ◌∙◌, Bool, true, false, not, ◌&&◌, ◌||◌, List, [], ◌∷◌, ◌++◌, Option, none,
  some, String, str_eq, ltb, leb, arith, length, if◌then◌else◌, ap, eq_iff,
}
use nautobot_maps.Level.{Level, maintenance, rank, level_eq}
use nautobot_maps.Text.{Text}
use nautobot_maps.Availability.Interval.{Time}
use nautobot_maps.Notify.Rules.{
  Settings, Kind, alarm, recovery, minimum, event_kind, dropped_below_minimum, tenant_matches,
}
use nautobot_maps.Notify.Outbox.{
  Row, pending, Outbox, latest_kind, change_kind, insert_rows, enqueue_change,
}

abbrev pub is_alarm : Option Kind → Bool
is_alarm (some alarm) = true
is_alarm _ = false

-- The latest message about the site is an alarm, so no recovery has followed it.
abbrev pub is_alarm_open : String → Outbox → Bool
is_alarm_open site_id box = is_alarm (latest_kind site_id none box.rows)

-- An equality test of two Booleans.
abbrev pub agrees : Bool → Bool → Bool
agrees true b = b
agrees false b = not b

latest_kind-append :
    (j : String) (found : Option Kind) (r : Row) (l : List Row)
    → latest_kind j found (l ++ (r ∷ []))
      ≡ (if str_eq r.site_id j then some r.kind else latest_kind j found l)
unfolding latest_kind
latest_kind-append j found r [] = refl
latest_kind-append j found r (s ∷ l) =
    latest_kind-append j (if str_eq s.site_id j then some s.kind else found) r l

abbrev is_some_channel : List Text → Bool
is_some_channel [] = false
is_some_channel (c ∷ channels) = true

latest_kind-insert_rows :
    (j : String) (channels : List Text) (kind : Kind) (site_id : String)
    (from_level to_level : Level) (at : Time) (box : Outbox)
    → latest_kind j none (insert_rows channels kind site_id from_level to_level at box).rows ≡ (
        if is_some_channel channels && str_eq site_id j
        then some kind
        else latest_kind j none box.rows)
unfolding insert_rows
latest_kind-insert_rows j [] kind site_id from_level to_level at box = refl
latest_kind-insert_rows j (c ∷ channels) kind site_id from_level to_level at box =
    let r : Row = record {
      id = box.next_id;
      channel = c;
      kind = kind;
      site_id = site_id;
      from_level = from_level;
      to_level = to_level;
      status = pending;
      attempts = 0;
      created_at = at;
      next_attempt_at = at;
    } in
    ground (
      arith,
      latest_kind-insert_rows j channels kind site_id from_level to_level at
          (record { rows = box.rows ++ (r ∷ []); next_id = box.next_id + 1 }),
      latest_kind-append j none r box.rows,
    )

-- What the chosen kind leaves as the latest message about the site.
abbrev latest_after : Option Kind → Option Kind → Option Kind
latest_after (some kind) before = some kind
latest_after none before = before

change_kind-alarm_open :
    (cfg : Settings) (box : Outbox) (site_id : String) (from_level to_level : Level) (tier : Text)
    → str_eq site_id "" ≡ false
    → level_eq to_level maintenance ≡ false
    → (ltb (rank to_level) (rank from_level) && ltb (rank to_level) (minimum cfg tier)
        || agrees (is_alarm_open site_id box) (leb (minimum cfg tier) (rank from_level)))
      ≡ true
    → is_alarm (
        latest_after
          (change_kind cfg box site_id from_level to_level tier)
          (latest_kind site_id none box.rows))
      ≡ leb (minimum cfg tier) (rank to_level)
unfolding change_kind event_kind dropped_below_minimum
change_kind-alarm_open cfg box site_id from_level to_level tier named active before =
    by_latest (latest_kind site_id none box.rows) refl
  where
    by_latest :
        (o : Option Kind)
        → latest_kind site_id none box.rows ≡ o
        → is_alarm (
            latest_after
              (change_kind cfg box site_id from_level to_level tier)
              (latest_kind site_id none box.rows))
          ≡ leb (minimum cfg tier) (rank to_level)
    by_latest none e = ground arith
    by_latest (some alarm) e = ground arith
    by_latest (some recovery) e = ground arith

enqueue_change-latest :
    (cfg : Settings) (box : Outbox) (site_id j : String) (from_level to_level : Level) (tier : Text)
    (tenants : List Text) (at : Time)
    → 1 ≤ length cfg.channels
    → tenant_matches cfg tenants ≡ true
    → latest_kind j none
        (enqueue_change cfg box site_id from_level to_level tier tenants at false).0.rows
      ≡ (if str_eq site_id j
          then latest_after
              (change_kind cfg box site_id from_level to_level tier)
              (latest_kind j none box.rows)
          else latest_kind j none box.rows)
unfolding enqueue_change
enqueue_change-latest cfg box site_id j from_level to_level tier tenants at some_channel wanted =
    by_channels cfg.channels (change_kind cfg box site_id from_level to_level tier) refl refl
  where
    by_channels :
        (l : List Text) (o : Option Kind)
        → cfg.channels ≡ l
        → change_kind cfg box site_id from_level to_level tier ≡ o
        → latest_kind j none
            (enqueue_change cfg box site_id from_level to_level tier tenants at false).0.rows
          ≡ (if str_eq site_id j
              then latest_after
                  (change_kind cfg box site_id from_level to_level tier)
                  (latest_kind j none box.rows)
              else latest_kind j none box.rows)
    by_channels [] o e f = absurd (omega (arith, ap (λ m. length m) e))
    by_channels (c ∷ l) none e f = ground arith
    by_channels (c ∷ l) (some kind) e f =
        ground (arith, latest_kind-insert_rows j (c ∷ l) kind site_id from_level to_level at box)

-- A change of a named site's level, not to maintenance, is put in the outbox with
-- `enqueue_change`, with a channel to send on, a site of a wanted tenant and a recovery not kept quiet.
-- Afterwards the latest message about the site is an alarm exactly when the site's level is at its
-- minimum or worse, if that was so before, or, whatever it was before, if the level falls to below
-- the minimum. The latest message about any other site is as before.
pub enqueue_change-alarm_open :
    (cfg : Settings) (box : Outbox) (site_id other : String) (from_level to_level : Level)
    (tier : Text) (tenants : List Text) (at : Time)
    → 1 ≤ length cfg.channels
    → tenant_matches cfg tenants ≡ true
    → str_eq site_id "" ≡ false
    → str_eq site_id other ≡ false
    → level_eq to_level maintenance ≡ false
    → (ltb (rank to_level) (rank from_level) && ltb (rank to_level) (minimum cfg tier)
        || agrees (is_alarm_open site_id box) (leb (minimum cfg tier) (rank from_level)))
      ≡ true
    → let after = (enqueue_change cfg box site_id from_level to_level tier tenants at false).0 in
      (is_alarm_open site_id after ≡ leb (minimum cfg tier) (rank to_level))
      × (latest_kind other none after.rows ≡ latest_kind other none box.rows)
enqueue_change-alarm_open cfg box site_id other from_level to_level tier tenants at some_channel
      wanted named apart active before =
    (
      ap is_alarm (
            enqueue_change-latest cfg box site_id site_id from_level to_level tier tenants at
              some_channel wanted
            ∙ rw ((eq_iff site_id site_id).1 refl) refl)
          ∙ change_kind-alarm_open cfg box site_id from_level to_level tier named active before,
      enqueue_change-latest cfg box site_id other from_level to_level tier tenants at some_channel
            wanted
          ∙ rw apart refl,
    )
