-- ===== src/Webhooks/Stored.antt =====
-- What `store` leaves in the table, alert by alert, and when a board is to be built again.
use nautobot_maps.Prelude.{
  ◌<◌, ◌≡◌, refl, ap, ◌∙◌, sym, Bool, true, false, not, ◌&&◌, List, [], ◌∷◌, ◌++◌, map, Option,
  none, some, arith, if◌then◌else◌, filter, any,
}
use nautobot_maps.Text.{Text, text_eq, text_eq_refl, text_eq_sound}
use nautobot_maps.Availability.Interval.{Time}
use nautobot_maps.Webhooks.Value.{Event}
use nautobot_maps.Webhooks.Table.{
  Row, Store, is_current, has_key, new_row, refreshed, store_event, store_events, store,
  pending_rebuild, mark_rebuilt,
}

-- The row of an alert: the first with its source and its key.
abbrev pub row_of : Text → Text → List Row → Option Row
row_of source key [] = none
row_of source key (r ∷ rows) =
    let rest = row_of source key rows in
    if text_eq r.source source && text_eq r.alert_key key then some r else rest

abbrev pub is_about : Text → Text → Event → Bool
is_about source key e = text_eq e.source source && text_eq e.key key

-- One alert's own state machine: firing begins it, or refreshes it and leaves its start, and resolved
-- ends it.
abbrev pub begun : Time → Event → Row
begun now e = record {
  source = e.source;
  alert_key = e.key;
  device_key = e.device;
  summary = e.summary;
  started_at = elim e.started_at [ none ↦ now | some at ↦ at ];
  updated_at = now;
}

abbrev pub next_row : Time → Event → Option Row → Option Row
next_row now e none = if e.is_down then some (begun now e) else none
next_row now e (some r) =
    if e.is_down
    then some (record {
      source = r.source;
      alert_key = r.alert_key;
      device_key = e.device;
      summary = e.summary;
      started_at = r.started_at;
      updated_at = now;
    })
    else none

abbrev pub last_row : Time → Text → Text → List Event → Option Row → Option Row
last_row now source key [] o = o
last_row now source key (e ∷ events) o =
    last_row now source key events (if is_about source key e then next_row now e o else o)

abbrev matches : Text → Text → Row → Bool
matches source key r = text_eq r.source source && text_eq r.alert_key key

-- Rows of other alerts are not touched.
apart :
    (source key : Text) (e : Event) (r : Row)
    → is_about source key e ≡ false
    → has_key e r ≡ true
    → matches source key r ≡ false
unfolding has_key
apart source key e r h k =
    ap (λ s. text_eq s source && text_eq r.alert_key key)
      (text_eq_sound r.source e.source (ground arith))
    ∙ ap (λ t. text_eq e.source source && text_eq t key)
        (text_eq_sound r.alert_key e.key (ground arith))
    ∙ h

module _ (now : Time) (e : Event) where
  own_removed :
      (rows : List Row) → row_of e.source e.key (filter (λ r. not (has_key e r)) rows) ≡ none
  unfolding has_key
  own_removed [] = refl
  own_removed (r ∷ rows) = ground (arith, own_removed rows)

  own_stored :
      (rows : List Row)
      → e.is_down ≡ true
      → any (has_key e) rows ≡ true
      → row_of e.source e.key (map (λ r. if has_key e r then refreshed now e r else r) rows)
        ≡ next_row now e (row_of e.source e.key rows)
  unfolding has_key
  own_stored [] d h = cc
  own_stored (r ∷ rows) d h = ground (arith, own_stored rows d)

  own_appended :
      (rows : List Row)
      → e.is_down ≡ true
      → any (has_key e) rows ≡ false
      → row_of e.source e.key (rows ++ (new_row now e ∷ []))
        ≡ next_row now e (row_of e.source e.key rows)
  unfolding has_key
  own_appended [] d h = ground (arith, text_eq_refl e.source, text_eq_refl e.key)
  own_appended (r ∷ rows) d h = ground (arith, own_appended rows d)

  own_up : (o : Option Row) → e.is_down ≡ false → none ≡ next_row now e o
  own_up none h = ground arith
  own_up (some r) h = ground arith

  own :
      (rows : List Row)
      → row_of e.source e.key (store_event now e rows) ≡ next_row now e (row_of e.source e.key rows)
  unfolding store_event
  own rows = by_test (e.is_down) (any (has_key e) rows) refl refl
    where
      by_test :
          (d b : Bool)
          → e.is_down ≡ d
          → any (has_key e) rows ≡ b
          → row_of e.source e.key (
              if not d
              then filter (λ r. not (has_key e r)) rows
              else if b
              then map (λ r. if has_key e r then refreshed now e r else r) rows
              else rows ++ (new_row now e ∷ []))
            ≡ next_row now e (row_of e.source e.key rows)
      by_test false b h k = own_removed rows ∙ own_up (row_of e.source e.key rows) h
      by_test true true h k = own_stored rows h k
      by_test true false h k = own_appended rows h k

  module _ (source key : Text) (elsewhere : is_about source key e ≡ false) where
    other_removed :
        (rows : List Row)
        → row_of source key (filter (λ r. not (has_key e r)) rows) ≡ row_of source key rows
    other_removed [] = refl
    other_removed (r ∷ rows) = ground (arith, apart source key e r elsewhere, other_removed rows)

    other_refreshed :
        (rows : List Row)
        → row_of source key (map (λ r. if has_key e r then refreshed now e r else r) rows)
          ≡ row_of source key rows
    other_refreshed [] = refl
    other_refreshed (r ∷ rows) =
        ground (arith, apart source key e r elsewhere, other_refreshed rows)

    other_appended :
        (rows : List Row)
        → row_of source key (rows ++ (new_row now e ∷ [])) ≡ row_of source key rows
    other_appended [] = ground arith
    other_appended (r ∷ rows) = ground (arith, other_appended rows)

    elsewhere_same :
        (rows : List Row) → row_of source key (store_event now e rows) ≡ row_of source key rows
    unfolding store_event
    elsewhere_same rows = by_test (e.is_down) (any (has_key e) rows)
      where
        by_test :
            (d b : Bool)
            → row_of source key (
                if not d
                then filter (λ r. not (has_key e r)) rows
                else if b
                then map (λ r. if has_key e r then refreshed now e r else r) rows
                else rows ++ (new_row now e ∷ []))
              ≡ row_of source key rows
        by_test false b = other_removed rows
        by_test true true = other_refreshed rows
        by_test true false = other_appended rows

row_of-store_event :
    (now : Time) (source key : Text) (e : Event) (rows : List Row)
    → row_of source key (store_event now e rows) ≡ (
        if is_about source key e
        then next_row now e (row_of source key rows)
        else row_of source key rows)
row_of-store_event now source key e rows = by_test (is_about source key e) refl
  where
    by_test :
        (b : Bool)
        → is_about source key e ≡ b
        → row_of source key (store_event now e rows)
          ≡ (if b then next_row now e (row_of source key rows) else row_of source key rows)
    by_test true h =
        let s = text_eq_sound e.source source (ground arith) in
        let k = text_eq_sound e.key key (ground arith) in rw (sym s, sym k) (own now e rows)
    by_test false h = elsewhere_same now e source key h rows

row_of-store_events :
    (now : Time) (source key : Text) (events : List Event) (rows : List Row)
    → row_of source key (store_events now events rows)
      ≡ last_row now source key events (row_of source key rows)
unfolding store_events
row_of-store_events now source key [] rows = refl
row_of-store_events now source key (e ∷ events) rows =
    row_of-store_events now source key events (store_event now e rows)
    ∙ ap (last_row now source key events) (row_of-store_event now source key e rows)

-- After a batch, the row of each alert is what the batch's events on that alert alone make, in order,
-- of the row that it had, if that has not expired: firing begins or refreshes it, resolved ends it.
pub store-row_of :
    (ttl now : Time) (source key : Text) (events : List Event) (s : Store)
    → row_of source key (store ttl now events s).rows
      ≡ last_row now source key events (row_of source key (filter (is_current ttl now) s.rows))
unfolding store
store-row_of ttl now source key events s =
    row_of-store_events now source key events (filter (is_current ttl now) s.rows)

-- Alerts that arrive after the time whose alerts a build took in, also while it ran, ask for
-- another build.
pub pending_rebuild-store :
    (ttl now taken : Time) (e : Event) (events : List Event) (s : Store)
    → taken < now
    → pending_rebuild (mark_rebuilt taken (store ttl now (e ∷ events) s)) ≡ some now
unfolding pending_rebuild mark_rebuilt store
pending_rebuild-store ttl now taken e events s h = ground arith
