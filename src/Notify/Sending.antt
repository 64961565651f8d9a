-- ===== src/Notify/Sending.antt =====
-- What one run of `_send_channel` does to the outbox.
use nautobot_maps.Prelude.{
  length-append, ℕ, zero, suc, ◌+◌, ◌-◌, ◌≤◌, ◌<◌, ◌≡◌, refl, ap, ◌∙◌, Bool, true, false, not, ◌||◌,
  List, [], ◌∷◌, ◌++◌, map, arith, if◌then◌else◌, length, filter, any, all,
}
use mathlib.Core.List.{append_assoc}
use nautobot_maps.Text.{Text}
use nautobot_maps.Availability.Interval.{Time}
use nautobot_maps.Notify.Rules.{Settings}
use nautobot_maps.Notify.Outbox.{
  failed, Row, is_pending, max_attempts, retry_delay, summary_max_events, slices, batches_of,
  is_due, fail_row, fail_rows, has_id, mark_sent, send_batches, send_channel,
}

flatten : List (List Row) → List Row
flatten [] = []
flatten (b ∷ l) = b ++ flatten l

flatten-slices :
    (room : ℕ) (batch rows : List Row) → flatten (slices room batch rows) ≡ batch ++ rows
unfolding flatten slices
flatten-slices room batch [] = refl
flatten-slices zero batch (r ∷ rows) =
    ap (λ l. batch ++ l) (flatten-slices (summary_max_events - 1) (r ∷ []) rows)
flatten-slices (suc room) batch (r ∷ rows) =
    flatten-slices room (batch ++ r ∷ []) rows ∙ append_assoc batch (r ∷ []) rows

flatten-singles : (rows : List Row) → flatten (map (λ r. r ∷ []) rows) ≡ rows
unfolding flatten
flatten-singles [] = refl
flatten-singles (r ∷ rows) = ap (λ l. r ∷ l) (flatten-singles rows)

flatten-batches_of : (cfg : Settings) (rows : List Row) → flatten (batches_of cfg rows) ≡ rows
unfolding batches_of
flatten-batches_of cfg rows =
    ground (arith, flatten-slices summary_max_events [] rows, flatten-singles rows)

has_id-append : (n : ℕ) (a b : List Row) → has_id n (a ++ b) ≡ (has_id n a || has_id n b)
has_id-append n [] b = refl
has_id-append n (r ∷ a) b = ground (arith, has_id-append n a b)

-- Every row that is due has the id of one of `left`.
all_due_in : Text → Time → List Row → List Row → Bool
all_due_in channel now left = all (λ r. not (is_due channel now r) || has_id r.id left)

retry_delay-pos : (n : ℕ) → 0 < retry_delay n
unfolding retry_delay
retry_delay-pos n = ground arith

module _ (channel : Text) (now : Time) where
  fail_row-all_due_in :
      (read : Row) (left rows : List Row)
      → all_due_in channel now (read ∷ left) rows ≡ true
      → all_due_in channel now left (fail_row now read rows) ≡ true
  unfolding all_due_in is_due fail_row
  fail_row-all_due_in read left [] h = refl
  fail_row-all_due_in read left (r ∷ rows) h =
      ground (arith, fail_row-all_due_in read left rows, retry_delay-pos (read.attempts + 1))

  fail_rows-all_due_in :
      (batch left rows : List Row)
      → all_due_in channel now (batch ++ left) rows ≡ true
      → all_due_in channel now left (fail_rows now batch rows) ≡ true
  unfolding fail_rows
  fail_rows-all_due_in [] left rows h = h
  fail_rows-all_due_in (read ∷ batch) left rows h =
      fail_rows-all_due_in batch left (fail_row now read rows)
        (fail_row-all_due_in read (batch ++ left) rows h)

  mark_sent-all_due_in :
      (batch left rows : List Row)
      → all_due_in channel now (batch ++ left) rows ≡ true
      → all_due_in channel now left (mark_sent batch rows) ≡ true
  unfolding all_due_in is_due mark_sent
  mark_sent-all_due_in batch left [] h = refl
  mark_sent-all_due_in batch left (r ∷ rows) h =
      ground (arith, has_id-append r.id batch left, mark_sent-all_due_in batch left rows)

  send_batches-all_due_in :
      (deliver : List Row → Bool) (batches : List (List Row)) (rows : List Row) (count : ℕ)
      → all_due_in channel now (flatten batches) rows ≡ true
      → all_due_in channel now [] (send_batches deliver now batches rows count).0 ≡ true
  unfolding send_batches flatten
  send_batches-all_due_in deliver [] rows count h = h
  send_batches-all_due_in deliver (batch ∷ batches) rows count h =
      send_batches-all_due_in deliver batches
        (if deliver batch then mark_sent batch rows else fail_rows now batch rows)
        (if deliver batch then count + length batch else count)
        (ground (
          arith,
          mark_sent-all_due_in batch (flatten batches) rows h,
          fail_rows-all_due_in batch (flatten batches) rows h,
        ))

  all_due_in-cons :
      (r : Row) (left rows : List Row)
      → all_due_in channel now left rows ≡ true
      → all_due_in channel now (r ∷ left) rows ≡ true
  unfolding all_due_in
  all_due_in-cons r left [] h = refl
  all_due_in-cons r left (s ∷ rows) h = ground (arith, all_due_in-cons r left rows)

  due_rows_selected :
      (rows : List Row) → all_due_in channel now (filter (is_due channel now) rows) rows ≡ true
  unfolding all_due_in
  due_rows_selected [] = refl
  due_rows_selected (r ∷ rows) =
      ground
        (arith, due_rows_selected rows, all_due_in-cons r (filter (is_due channel now) rows) rows)

  none_due_of :
      (rows : List Row)
      → all_due_in channel now [] rows ≡ true
      → any (is_due channel now) rows ≡ false
  unfolding all_due_in
  none_due_of [] h = refl
  none_due_of (r ∷ rows) h = ground (arith, none_due_of rows)

-- After a run on a channel none of its messages is due at the time of the run, whatever the
-- deliveries answered.
pub send_channel-none_due :
    (cfg : Settings) (deliver : Text → List Row → Bool) (now : Time) (channel : Text)
    (rows : List Row)
    → any (is_due channel now) (send_channel cfg deliver now channel rows).0 ≡ false
unfolding send_channel
send_channel-none_due cfg deliver now channel rows = none_due_of channel now _ (
    send_batches-all_due_in channel now (deliver channel)
      (batches_of cfg (filter (is_due channel now) rows)) rows 0
      (rw (flatten-batches_of cfg (filter (is_due channel now) rows))
        (due_rows_selected channel now rows)))

-- A message that is sent or waits has attempts left, and one that was given up has had them all.
abbrev pub IsValidRow : Row → Type 0
IsValidRow r =
    (is_pending r.status ≡ true → r.attempts < max_attempts)
    × (r.status ≡ failed → max_attempts ≤ r.attempts)

abbrev pub AllValid : List Row → Type 0
AllValid [] = Unit
AllValid (r ∷ rows) = IsValidRow r × AllValid rows

fail_row-AllValid :
    (now : Time) (read : Row) (rows : List Row) → AllValid rows → AllValid (fail_row now read rows)
unfolding fail_row
fail_row-AllValid now read [] v = tt
fail_row-AllValid now read (r ∷ rows) v = ground (arith, fail_row-AllValid now read rows v.1)

fail_rows-AllValid :
    (now : Time) (batch rows : List Row) → AllValid rows → AllValid (fail_rows now batch rows)
unfolding fail_rows
fail_rows-AllValid now [] rows v = v
fail_rows-AllValid now (read ∷ batch) rows v =
    fail_rows-AllValid now batch (fail_row now read rows) (fail_row-AllValid now read rows v)

mark_sent-AllValid : (batch rows : List Row) → AllValid rows → AllValid (mark_sent batch rows)
unfolding mark_sent
mark_sent-AllValid batch [] v = tt
mark_sent-AllValid batch (r ∷ rows) v = ground (arith, mark_sent-AllValid batch rows v.1)

send_batches-AllValid :
    (deliver : List Row → Bool) (now : Time) (batches : List (List Row)) (rows : List Row)
    (count : ℕ)
    → AllValid rows
    → AllValid (send_batches deliver now batches rows count).0
unfolding send_batches
send_batches-AllValid deliver now [] rows count v = v
send_batches-AllValid deliver now (batch ∷ batches) rows count v =
    send_batches-AllValid deliver now batches
      (if deliver batch then mark_sent batch rows else fail_rows now batch rows)
      (if deliver batch then count + length batch else count) (either (deliver batch))
  where
    either : (b : Bool) → AllValid (if b then mark_sent batch rows else fail_rows now batch rows)
    either true = mark_sent-AllValid batch rows v
    either false = fail_rows-AllValid now batch rows v

-- A run keeps every row valid: a message that still waits has had fewer than MAX_ATTEMPTS attempts,
-- and one that was given up has had that many.
pub send_channel-AllValid :
    (cfg : Settings) (deliver : Text → List Row → Bool) (now : Time) (channel : Text)
    (rows : List Row)
    → AllValid rows
    → AllValid (send_channel cfg deliver now channel rows).0
unfolding send_channel
send_channel-AllValid cfg deliver now channel rows v =
    send_batches-AllValid (deliver channel) now (batches_of cfg (filter (is_due channel now) rows))
      rows 0 v

sent_count :
    (now : Time) (batches : List (List Row)) (rows : List Row) (count : ℕ)
    → (send_batches (λ b. true) now batches rows count).1 ≡ count + length (flatten batches)
unfolding send_batches flatten
sent_count now [] rows count = omega arith
sent_count now (batch ∷ batches) rows count =
    sent_count now batches (mark_sent batch rows) (count + length batch)
    ∙ omega (arith, length-append batch (flatten batches))

-- When every delivery succeeds, the number that a run answers is the number of messages that were
-- due, whether they go out one by one or in summaries.
pub send_channel-count :
    (cfg : Settings) (now : Time) (channel : Text) (rows : List Row)
    → (send_channel cfg (λ c b. true) now channel rows).1
      ≡ length (filter (is_due channel now) rows)
unfolding send_channel
send_channel-count cfg now channel rows =
    sent_count now (batches_of cfg (filter (is_due channel now) rows)) rows 0
    ∙ omega (arith, ap length (flatten-batches_of cfg (filter (is_due channel now) rows)))
