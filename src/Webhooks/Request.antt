-- ===== src/Webhooks/Request.antt =====
-- `parse_generic` of webhooks_service.py. The host name in a URL and the time that an ISO-8601 text says
-- are parameters.
use nautobot_maps.Prelude.{
  ℕ, Bool, true, false, not, ◌&&◌, ◌||◌, List, [], ◌∷◌, Option, none, some, leb, ltb, ◌==◌, length,
  if◌then◌else◌, all,
}
use nautobot_maps.Text.{Text, text, is_empty, lower, strip}
use nautobot_maps.Availability.Interval.{Time}
use nautobot_maps.Webhooks.Value.{
  max_alerts, max_key_length, max_summary_length, Value, Parsed, Event, device_key, time_of,
  limited_text, missing, null, string, number, other, wrong_count, not_object, device_required,
  status_unknown, source_not_allowed, id_not_allowed, id_too_long, not_a_time, refused, parsed,
}
use nautobot_maps.Webhooks.Alertmanager.{state_of}

-- An event of the generic webhook, or anything that is no object.
pub data Item : Type 0 where
  other_item : Item
  item : (device status source id summary started_at : Value) → Item

-- `SOURCE_PATTERN`
abbrev pub is_lower_or_digit : ℕ → Bool
is_lower_or_digit c = (leb b'a' c && leb c b'z') || (leb b'0' c && leb c b'9')

abbrev pub is_source_rest : ℕ → Bool
is_source_rest c = is_lower_or_digit c || c == b'.' || c == b'_' || c == b'-'

abbrev pub matches_source : Text → Bool
matches_source [] = false
matches_source (c ∷ s) = is_lower_or_digit c && leb (length s) 39 && all is_source_rest s

unfoldable pub read_source : Value → Option Text
unfolding strip lower
read_source missing = some (text "webhook")
read_source (string s) =
    let source = lower (strip s) in if matches_source source then some source else none
read_source _ = none

-- The id, by default the device.
unfoldable pub read_id : Text → Value → Option Text
unfolding strip
read_id device missing = some (strip device)
read_id device (string s) = let key = strip s in if is_empty key then none else some key
read_id device (number digits) = some digits
read_id device null = none
read_id device other = none

-- A time that was given is one.
abbrev pub is_time : (Text → Option (ℕ × Time)) → Value → Bool
is_time parse missing = true
is_time parse null = true
is_time parse v = elim (time_of parse v) [ none ↦ false | some at ↦ true ]

abbrev pub with_key :
    (Text → Option (ℕ × Time)) → Text → Bool → Text → Value → Value → Option Text → Parsed Event
with_key parse device is_down source summary started none = refused id_not_allowed
with_key parse device is_down source summary started (some key) =
    if ltb max_key_length (length key)
    then refused id_too_long
    else if not (is_time parse started)
    then refused not_a_time
    else parsed (record {
      source = source;
      key = key;
      device = device;
      is_down = is_down;
      summary = limited_text summary max_summary_length;
      started_at = time_of parse started;
    })

abbrev pub with_source :
    (Text → Option (ℕ × Time)) → Text → Bool → Value → Value → Value → Option Text → Parsed Event
with_source parse device is_down id summary started none = refused source_not_allowed
with_source parse device is_down id summary started (some source) =
    with_key parse device is_down source summary started (read_id device id)

abbrev pub with_state :
    (Text → Option (ℕ × Time)) → Text → Value → Value → Value → Value → Option Bool → Parsed Event
with_state parse device source id summary started none = refused status_unknown
with_state parse device source id summary started (some is_down) =
    with_source parse device is_down id summary started (read_source source)

unfoldable pub read_item : (Text → Option Text) → (Text → Option (ℕ × Time)) → Item → Parsed Event
unfolding device_key read_source read_id limited_text
read_item hostname parse other_item = refused not_object
read_item hostname parse (item device status source id summary started_at) =
    let key = device_key hostname device in
    if is_empty key
    then refused device_required
    else with_state parse key source id summary started_at
        (state_of (text "down") (text "up") status)

-- Events are appended until one is refused.
abbrev pub then_events : Parsed Event → Parsed (List Event) → Parsed (List Event)
then_events (refused e) rest = refused e
then_events (parsed e) (refused f) = refused f
then_events (parsed e) (parsed events) = parsed (e ∷ events)

abbrev pub read_items : (Item → Parsed Event) → List Item → Parsed (List Event)
read_items read [] = parsed []
read_items read (i ∷ items) = then_events (read i) (read_items read items)

-- A body that is no list is a list of it.
unfoldable pub parse_generic :
    (Text → Option Text) → (Text → Option (ℕ × Time)) → List Item → Parsed (List Event)
unfolding read_item
parse_generic hostname parse items =
    if length items == 0 || ltb max_alerts (length items)
    then refused wrong_count
    else read_items (read_item hostname parse) items
