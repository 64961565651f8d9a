-- ===== src/Webhooks/Alertmanager.antt =====
-- `parse_alertmanager` of webhooks_service.py. The host name in a URL, the time that an ISO-8601 text
-- says and the hash of an alert's labels are parameters.
use nautobot_maps.Prelude.{
  ℕ, ◌+◌, Bool, true, false, not, ◌&&◌, List, [], ◌∷◌, Option, none, some, ltb, length,
  if◌then◌else◌,
}
use nautobot_maps.Text.{Text, text, text_eq, lower, strip, is_in, first_codes, text_or}
use nautobot_maps.Availability.Interval.{Time}
use nautobot_maps.Webhooks.Value.{
  max_alerts, max_key_length, max_summary_length, Value, Parsed, Event, device_key, time_of,
  limited_text, string_or_empty, get, string, not_alertmanager, too_many_alerts, refused, parsed,
}

-- An alert of the request. `labels` is none when they are no object, and `annotations` then empty.
pub record AlertItem : Type 0 where
  pub labels : Option (List (Text × Value))
  pub status : Value
  pub fingerprint : Value
  pub annotations : List (Text × Value)
  pub starts_at : Value

pub record AlertSettings : Type 0 where
  pub alertnames : List Text
  pub device_labels : List Text

abbrev pub first_device : (Text → Option Text) → List (Text × Value) → List Text → Text
first_device hostname labels [] = []
first_device hostname labels (label ∷ rest) =
    text_or (device_key hostname (get label labels)) (first_device hostname labels rest)

-- Firing is down, resolved is up.
abbrev pub state_of : Text → Text → Value → Option Bool
state_of down up (string s) =
    if text_eq s down then some true else if text_eq s up then some false else none
state_of down up _ = none

abbrev pub key_or : Text → Text → Text
key_or [] digest = digest
key_or (c ∷ key) digest = if ltb max_key_length (length (c ∷ key)) then digest else c ∷ key

unfoldable pub alert_event :
    (Text → Option (ℕ × Time))
    → (List (Text × Value) → Text)
    → AlertItem
    → List (Text × Value)
    → Text
    → Bool
    → Event
unfolding strip limited_text
alert_event parse digest a labels device is_down = record {
  source = text "alertmanager";
  key = key_or (strip (string_or_empty a.fingerprint)) (digest labels);
  device = device;
  is_down = is_down;
  summary =
      text_or
        (text_or (limited_text (get (text "summary") a.annotations) max_summary_length)
          (limited_text (get (text "description") a.annotations) max_summary_length))
        (first_codes max_summary_length (string_or_empty (get (text "alertname") labels)));
  started_at = time_of parse a.starts_at;
}

abbrev pub event_if : (Bool → Event) → Text → Option Bool → Option Event
event_if event [] state = none
event_if event (c ∷ device) none = none
event_if event (c ∷ device) (some is_down) = some (event is_down)

-- None when the alert is skipped.
abbrev pub read_labels :
    (Text → Option Text)
    → (Text → Option (ℕ × Time))
    → (List (Text × Value) → Text)
    → AlertSettings
    → AlertItem
    → Option (List (Text × Value))
    → Option Event
read_labels hostname parse digest cfg a none = none
read_labels hostname parse digest cfg a (some labels) =
    let name = lower (strip (string_or_empty (get (text "alertname") labels))) in
    let device = first_device hostname labels cfg.device_labels in
    if ltb 0 (length cfg.alertnames) && not (is_in name cfg.alertnames)
    then none
    else event_if (alert_event parse digest a labels device) device
        (state_of (text "firing") (text "resolved") a.status)

-- An element of the list that is no object has no labels.
unfoldable pub read_alert :
    (Text → Option Text)
    → (Text → Option (ℕ × Time))
    → (List (Text × Value) → Text)
    → AlertSettings
    → AlertItem
    → Option Event
unfolding strip lower device_key alert_event
read_alert hostname parse digest cfg a = read_labels hostname parse digest cfg a a.labels

abbrev pub add_event : Option Event → List Event × ℕ → List Event × ℕ
add_event none (events, skipped) = (events, skipped + 1)
add_event (some e) (events, skipped) = (e ∷ events, skipped)

abbrev pub read_alerts : (AlertItem → Option Event) → List AlertItem → List Event × ℕ
read_alerts read [] = ([], 0)
read_alerts read (a ∷ alerts) = add_event (read a) (read_alerts read alerts)

-- `body["alerts"]`, or none when the body is no object with a list of them.
unfoldable pub parse_alertmanager :
    (Text → Option Text)
    → (Text → Option (ℕ × Time))
    → (List (Text × Value) → Text)
    → AlertSettings
    → Option (List AlertItem)
    → Parsed (List Event × ℕ)
unfolding read_alert
parse_alertmanager hostname parse digest cfg none = refused not_alertmanager
parse_alertmanager hostname parse digest cfg (some alerts) =
    if ltb max_alerts (length alerts)
    then refused too_many_alerts
    else parsed (read_alerts (read_alert hostname parse digest cfg) alerts)
