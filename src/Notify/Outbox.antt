-- ===== src/Notify/Outbox.antt =====
-- The notification outbox: `enqueue_change`, `retry_delay`, `_send_channel` and `send_pending`. The
-- table is a list of rows in the order of their ids; a message's content is its site, its kind and
-- the two levels.
use nautobot_maps.Prelude.{
  ℕ, zero, suc, ◌+◌, ◌-◌, ◌*◌, min, Bool, true, false, not, ◌&&◌, ◌||◌, List, [], ◌∷◌, ◌++◌, map,
  Option, none, some, String, str_eq, ltb, leb, ◌==◌, if◌then◌else◌, length, filter,
}
use nautobot_maps.Level.{Level}
use nautobot_maps.Text.{Text, text_eq}
use nautobot_maps.Availability.Interval.{Time}
use nautobot_maps.Notify.Rules.{
  Settings, Kind, alarm, recovery, event_kind, dropped_below_minimum, tenant_matches,
}

pub data Status : Type 0 where
  pending sent failed : Status

pub record Row : Type 0 where
  pub id : ℕ
  pub channel : Text
  pub kind : Kind
  pub site_id : String
  pub from_level : Level
  pub to_level : Level
  pub status : Status
  pub attempts : ℕ
  pub created_at : Time
  pub next_attempt_at : Time

abbrev pub is_pending : Status → Bool
is_pending pending = true
is_pending _ = false

abbrev pub is_recovery : Kind → Bool
is_recovery recovery = true
is_recovery alarm = false

-- The rows and the next id.
pub record Outbox : Type 0 where
  pub rows : List Row
  pub next_id : ℕ

-- `SELECT kind ... WHERE site_id = ... ORDER BY id DESC LIMIT 1`
unfoldable pub latest_kind : String → Option Kind → List Row → Option Kind
latest_kind site_id found [] = found
latest_kind site_id found (r ∷ rows) =
    latest_kind site_id (if str_eq r.site_id site_id then some r.kind else found) rows

-- The kind that is announced: also a recovery from an alarm that went out under another threshold.
unfoldable pub change_kind : Settings → Outbox → String → Level → Level → Text → Option Kind
change_kind cfg box site_id from_level to_level tier =
    elim (event_kind cfg from_level to_level tier) [
      | some k ↦ some k
      | none ↦
          if not (str_eq site_id "") && dropped_below_minimum cfg from_level to_level tier
          then elim (latest_kind site_id none box.rows) [ some alarm ↦ some recovery | _ ↦ none ]
          else none
    ]

unfoldable pub insert_rows : List Text → Kind → String → Level → Level → Time → Outbox → Outbox
insert_rows [] kind site_id from_level to_level at box = box
insert_rows (channel ∷ channels) kind site_id from_level to_level at box =
    insert_rows channels kind site_id from_level to_level at (record {
      rows =
          box.rows
          ++ record {
            id = box.next_id;
            channel = channel;
            kind = kind;
            site_id = site_id;
            from_level = from_level;
            to_level = to_level;
            status = pending;
            attempts = 0;
            created_at = at;
            next_attempt_at = at;
          }
            ∷ [];
      next_id = box.next_id + 1;
    })

-- `enqueue_change` with the board row's tier and tenants; the number of rows queued.
unfoldable pub enqueue_change :
    Settings → Outbox → String → Level → Level → Text → List Text → Time → Bool → Outbox × ℕ
unfolding change_kind insert_rows
enqueue_change cfg box site_id from_level to_level tier tenants at quiet_recovery =
    elim cfg.channels [
      | [] ↦ (box, 0)
      | c ∷ channels ↦ elim (change_kind cfg box site_id from_level to_level tier) [
        | none ↦ (box, 0)
        | some kind ↦
            if quiet_recovery && is_recovery kind || not (tenant_matches cfg tenants)
            then (box, 0)
            else (
              insert_rows (c ∷ channels) kind site_id from_level to_level at box,
              length (c ∷ channels),
            )
      ]
    ]

abbrev pub max_attempts : ℕ
max_attempts = 10

abbrev pub minute : ℕ
minute = 60_000_000

-- RETRY_MINUTES by position; position -1 is the last.
abbrev pub retry_minutes : ℕ → ℕ
retry_minutes n =
    if n == 1
    then 1
    else if n == 2
    then 2
    else if n == 3
    then 5
    else if n == 4
    then 10
    else if n == 5
    then 15
    else 30

unfoldable pub retry_delay : ℕ → ℕ
retry_delay attempts = retry_minutes (min attempts 6) * minute

abbrev pub summary_max_events : ℕ
summary_max_events = 25

-- `rows[start : start + SUMMARY_MAX_EVENTS]` for each start: `batch` is the slice being filled, with
-- room for `room` more.
unfoldable pub slices : ℕ → List Row → List Row → List (List Row)
slices room batch [] = batch ∷ []
slices zero batch (r ∷ rows) = batch ∷ slices (summary_max_events - 1) (r ∷ []) rows
slices (suc room) batch (r ∷ rows) = slices room (batch ++ r ∷ []) rows

-- One message for each row, or summaries when there are more than NOTIFY_SUMMARY_THRESHOLD.
unfoldable pub batches_of : Settings → List Row → List (List Row)
unfolding slices
batches_of cfg rows =
    if ltb cfg.summary_threshold (length rows)
    then slices summary_max_events [] rows
    else map (λ r. r ∷ []) rows

-- The rows that `_send_channel` selects.
unfoldable pub is_due : Text → Time → Row → Bool
is_due channel now r = text_eq r.channel channel && is_pending r.status && leb r.next_attempt_at now

-- The `UPDATE` after a failure, of the row with that id: one more attempt than was read.
unfoldable pub fail_row : Time → Row → List Row → List Row
unfolding retry_delay
fail_row now read [] = []
fail_row now read (r ∷ rows) =
    let attempts = read.attempts + 1 in
    (if r.id == read.id
      then record r {
        attempts = attempts;
        status = if leb max_attempts attempts then failed else pending;
        next_attempt_at = now + retry_delay attempts;
      }
      else r)
    ∷ fail_row now read rows

unfoldable pub fail_rows : Time → List Row → List Row → List Row
unfolding fail_row
fail_rows now [] rows = rows
fail_rows now (read ∷ batch) rows = fail_rows now batch (fail_row now read rows)

abbrev pub has_id : ℕ → List Row → Bool
has_id id [] = false
has_id id (r ∷ rows) = id == r.id || has_id id rows

-- The `UPDATE` after a delivery, of the rows with the batch's ids.
unfoldable pub mark_sent : List Row → List Row → List Row
mark_sent batch [] = []
mark_sent batch (r ∷ rows) =
    (if has_id r.id batch then record r { status = sent; attempts = r.attempts + 1 } else r)
    ∷ mark_sent batch rows

-- `deliver` tells whether a batch was sent; the result has the number of messages sent.
unfoldable pub send_batches :
    (List Row → Bool) → Time → List (List Row) → List Row → ℕ → List Row × ℕ
unfolding mark_sent fail_rows
send_batches deliver now [] rows count = (rows, count)
send_batches deliver now (batch ∷ batches) rows count =
    send_batches deliver now batches
      (if deliver batch then mark_sent batch rows else fail_rows now batch rows)
      (if deliver batch then count + length batch else count)

unfoldable pub send_channel :
    Settings → (Text → List Row → Bool) → Time → Text → List Row → List Row × ℕ
unfolding is_due batches_of
send_channel cfg deliver now channel rows =
    send_batches (deliver channel) now (batches_of cfg (filter (is_due channel now) rows)) rows 0
