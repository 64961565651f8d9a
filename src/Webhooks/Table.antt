-- ===== src/Webhooks/Table.antt =====
-- The table `webhook_device_alerts` and what webhooks_service.py does on it: `store`, `read_index`, `find`,
-- `pending_rebuild` and `mark_rebuilt`. Reading an IP address is a
-- parameter. One time stands for the readings of the clock in a call of `store`.
use nautobot_maps.Prelude.{
  ◌+◌, Bool, true, false, not, ◌&&◌, ◌||◌, List, [], ◌∷◌, ◌++◌, map, Option, none, some, ltb, ◌==◌,
  if◌then◌else◌, filter, any, sort_by,
}
use nautobot_maps.Text.{Text, text_eq, is_empty, lower, strip, lookup_text, until}
use nautobot_maps.Availability.Interval.{Time}
use nautobot_maps.Webhooks.Value.{Event}

pub record Row : Type 0 where
  pub source : Text
  pub alert_key : Text
  pub device_key : Text
  pub summary : Text
  pub started_at : Time
  pub updated_at : Time

-- The table, and when alerts were last received and last taken into a board.
pub record Store : Type 0 where
  pub rows : List Row
  pub received : Option Time
  pub rebuilt : Option Time

-- `updated_at > cutoff(now)`
unfoldable pub is_current : Time → Time → Row → Bool
is_current ttl now r = ltb now (r.updated_at + ttl)

unfoldable pub has_key : Event → Row → Bool
has_key e r = text_eq r.source e.source && text_eq r.alert_key e.key

abbrev pub or_now : Option Time → Time → Time
or_now none now = now
or_now (some at) now = at

abbrev pub new_row : Time → Event → Row
new_row now e = record {
  source = e.source;
  alert_key = e.key;
  device_key = e.device;
  summary = e.summary;
  started_at = or_now e.started_at now;
  updated_at = now;
}

-- The `ON CONFLICT` of the `INSERT`: the row keeps its start.
abbrev pub refreshed : Time → Event → Row → Row
refreshed now e r = record r { device_key = e.device; summary = e.summary; updated_at = now }

unfoldable pub store_event : Time → Event → List Row → List Row
unfolding has_key
store_event now e rows =
    if not e.is_down
    then filter (λ r. not (has_key e r)) rows
    else if any (has_key e) rows
    then map (λ r. if has_key e r then refreshed now e r else r) rows
    else rows ++ (new_row now e ∷ [])

unfoldable pub store_events : Time → List Event → List Row → List Row
unfolding store_event
store_events now [] rows = rows
store_events now (e ∷ events) rows = store_events now events (store_event now e rows)

abbrev pub received_at : Time → List Event → Option Time → Option Time
received_at now [] before = before
received_at now (e ∷ events) before = some now

unfoldable pub store : Time → Time → List Event → Store → Store
unfolding is_current store_events
store ttl now events s = record s {
  rows = store_events now events (filter (is_current ttl now) s.rows);
  received = received_at now events s.received;
}

abbrev pub pending : Option Time → Option Time → Option Time
pending none rebuilt = none
pending (some received) none = some received
pending (some received) (some rebuilt) = if ltb rebuilt received then some received else none

unfoldable pub pending_rebuild : Store → Option Time
pending_rebuild s = pending s.received s.rebuilt

unfoldable pub mark_rebuilt : Time → Store → Store
mark_rebuilt received s = record s { rebuilt = some received }

-- `librenms_host_key`, `librenms_ip_key` and `is_ip_literal` of inventory_service.py.
unfoldable pub librenms_host_key : Text → Text
unfolding strip lower
librenms_host_key s = until b'.' (lower (strip s))

abbrev pub canonical_or_same : Option Text → Text → Text
canonical_or_same none s = s
canonical_or_same (some address) s = address

unfoldable pub librenms_ip_key : (Text → Option Text) → Text → Text
unfolding strip
librenms_ip_key address s =
    let candidate = until b'/' (strip s) in
    if is_empty candidate then [] else canonical_or_same (address candidate) candidate

abbrev pub is_address : Option Text → Bool
is_address none = false
is_address (some s) = true

unfoldable pub is_ip_literal : (Text → Option Text) → Text → Bool
unfolding librenms_ip_key
is_ip_literal address s =
    let candidate = librenms_ip_key address s in
    not (is_empty candidate) && is_address (address candidate)

-- `_keys`
unfoldable pub keys_of : (Text → Option Text) → Text → Text × Text
unfolding is_ip_literal librenms_ip_key librenms_host_key
keys_of address device =
    if is_ip_literal address device
    then ([], librenms_ip_key address device)
    else (librenms_host_key device, [])

pub record Found : Type 0 where
  pub source : Text
  pub summary : Text
  pub started_at : Time

abbrev pub found_of : Row → Found
found_of r = record { source = r.source; summary = r.summary; started_at = r.started_at }

pub record Index : Type 0 where
  pub by_host : List (Text × Found)
  pub by_ip : List (Text × Found)

-- `ORDER BY started_at, source, alert_key`, where texts are compared code by code.
abbrev pub text_leb : Text → Text → Bool
text_leb [] t = true
text_leb (a ∷ s) [] = false
text_leb (a ∷ s) (b ∷ t) = let rest = text_leb s t in ltb a b || (a == b && rest)

unfoldable pub starts_first : Row → Row → Bool
starts_first a b =
    ltb a.started_at b.started_at
    || (a.started_at == b.started_at
        && ((not (text_eq a.source b.source) && text_leb a.source b.source)
            || (text_eq a.source b.source && text_leb a.alert_key b.alert_key)))

-- `if key: index.setdefault(key, alert)`
abbrev pub set_default : Text → Found → List (Text × Found) → List (Text × Found)
set_default [] a d = d
set_default (c ∷ k) a d = elim (lookup_text (c ∷ k) d) [
  | some b ↦ d
  | none ↦ d ++ ((c ∷ k, a) ∷ [])
]

unfoldable pub index_rows : (Text → Option Text) → List Row → Index → Index
unfolding keys_of
index_rows address [] index = index
index_rows address (r ∷ rows) index = index_rows address rows (record {
  by_host = set_default (keys_of address r.device_key).0 (found_of r) index.by_host;
  by_ip = set_default (keys_of address r.device_key).1 (found_of r) index.by_ip;
})

unfoldable pub read_index : (Text → Option Text) → Time → Time → Store → Index
unfolding is_current starts_first index_rows
read_index address ttl now s =
    index_rows address (sort_by starts_first (filter (is_current ttl now) s.rows))
      (record { by_host = []; by_ip = [] })

abbrev pub or_found : Option Found → Option Found → Option Found
or_found (some a) o = some a
or_found none o = o

abbrev pub by_address : Text → List (Text × Found) → Option Found
by_address [] d = none
by_address (c ∷ ip) d = lookup_text (c ∷ ip) d

-- By the device's name, then by its primary IP.
unfoldable pub find : (Text → Option Text) → Index → Text → Text → Option Found
unfolding librenms_host_key librenms_ip_key
find address index name primary_ip =
    or_found (lookup_text (librenms_host_key name) index.by_host)
      (by_address (librenms_ip_key address primary_ip) index.by_ip)
