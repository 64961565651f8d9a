-- ===== src/Webhooks/Parsed.antt =====
-- What the events of a request are.
use nautobot_maps.Prelude.{
  ℕ, ◌+◌, ◌≤◌, ◌≡◌, refl, Bool, true, false, not, ◌&&◌, ◌||◌, List, [], ◌∷◌, Option, none, some,
  leb, ltb, ◌==◌, arith, if◌then◌else◌, length, all, zero, suc,
}
use nautobot_maps.Text.{Text, is_empty, first_codes, text}
use nautobot_maps.Availability.Interval.{Time}
use nautobot_maps.Webhooks.Request.{
  Item, other_item, item, read_source, read_id, with_key, with_source, with_state, read_item,
  then_events, read_items, parse_generic,
}
use nautobot_maps.Webhooks.Alertmanager.{
  AlertItem, AlertSettings, read_alert, add_event, read_alerts, parse_alertmanager, state_of,
}
use nautobot_maps.Webhooks.Value.{
  Value, Event, Parsed, refused, parsed, WebhookError, device_key, limited_text, max_alerts,
  max_key_length, max_summary_length,
}

-- The table can hold it: a device, a key that is not longer than it may be, and a summary so too.
abbrev pub is_storable : Event → Bool
is_storable e =
    not (is_empty e.device)
    && leb (length e.key) max_key_length
    && leb (length e.summary) max_summary_length

abbrev pub all_storable : Parsed (List Event) → Bool
all_storable (refused e) = true
all_storable (parsed events) = all is_storable events

abbrev storable : Parsed Event → Bool
storable (refused e) = true
storable (parsed e) = is_storable e

length-first_codes : (n : ℕ) (s : Text) → length (first_codes n s) ≤ n
length-first_codes n [] = ground arith
length-first_codes zero (c ∷ s) = ground arith
length-first_codes (suc n) (c ∷ s) = ground (arith, length-first_codes n s)

length-limited_text : (v : Value) (n : ℕ) → length (limited_text v n) ≤ n
unfolding limited_text
length-limited_text (Value.string s) n = length-first_codes n _
length-limited_text Value.missing n = ground arith
length-limited_text Value.null n = ground arith
length-limited_text (Value.number s) n = ground arith
length-limited_text Value.other n = ground arith

module _ (parse : Text → Option (ℕ × Time)) (device : Text) (given : is_empty device ≡ false)
    (is_down : Bool) where
  storable-with_key :
      (source : Text) (summary started : Value) (key : Option Text)
      → storable (with_key parse device is_down source summary started key) ≡ true
  storable-with_key source summary started none = refl
  storable-with_key source summary started (some key) =
      ground (arith, length-limited_text summary max_summary_length)

  storable-with_source :
      (id summary started : Value) (source : Option Text)
      → storable (with_source parse device is_down id summary started source) ≡ true
  storable-with_source id summary started none = refl
  storable-with_source id summary started (some source) =
      storable-with_key source summary started (read_id device id)

storable-with_state :
    (parse : Text → Option (ℕ × Time)) (device : Text) (source id summary started : Value)
    (o : Option Bool)
    → is_empty device ≡ false
    → storable (with_state parse device source id summary started o) ≡ true
storable-with_state parse device source id summary started none h = refl
storable-with_state parse device source id summary started (some is_down) h =
    storable-with_source parse device h is_down id summary started (read_source source)

storable-read_item :
    (hostname : Text → Option Text) (parse : Text → Option (ℕ × Time)) (i : Item)
    → storable (read_item hostname parse i) ≡ true
unfolding read_item
storable-read_item hostname parse other_item = refl
storable-read_item hostname parse (item device status source id summary started) =
    by_device (device_key hostname device)
  where
    by_device :
        (key : Text)
        → storable (
            if is_empty key
            then refused WebhookError.device_required
            else with_state parse key source id summary started
                (state_of (text "down") (text "up") status))
          ≡ true
    by_device [] = refl
    by_device (c ∷ key) = storable-with_state parse (c ∷ key) source id summary started _ refl

storable-then_events :
    (e : Parsed Event) (rest : Parsed (List Event))
    → storable e ≡ true
    → all_storable rest ≡ true
    → all_storable (then_events e rest) ≡ true
storable-then_events (refused e) rest h k = refl
storable-then_events (parsed e) (refused f) h k = refl
storable-then_events (parsed e) (parsed events) h k = ground arith

storable-read_items :
    (read : Item → Parsed Event)
    → ((i : Item) → storable (read i) ≡ true)
    → (items : List Item) → all_storable (read_items read items) ≡ true
storable-read_items read h [] = refl
storable-read_items read h (i ∷ items) =
    storable-then_events (read i) (read_items read items) (h i) (storable-read_items read h items)

-- Every event that the generic webhook accepts has a device, a key of at most 255 characters and a
-- summary of at most 500.
pub parse_generic-is_storable :
    (hostname : Text → Option Text) (parse : Text → Option (ℕ × Time)) (items : List Item)
    → all_storable (parse_generic hostname parse items) ≡ true
unfolding parse_generic
parse_generic-is_storable hostname parse items =
    by_count (length items == 0 || ltb max_alerts (length items))
  where
    by_count :
        (b : Bool)
        → all_storable (
            if b
            then refused WebhookError.wrong_count
            else read_items (read_item hostname parse) items)
          ≡ true
    by_count true = refl
    by_count false =
        storable-read_items (read_item hostname parse) (storable-read_item hostname parse) items

-- How many alerts the answer speaks of.
abbrev pub count_answered : Parsed (List Event × ℕ) → ℕ
count_answered (refused e) = 0
count_answered (parsed (events, skipped)) = length events + skipped

count-add_event :
    (o : Option Event) (p : List Event × ℕ)
    → length (add_event o p).0 + (add_event o p).1 ≡ length p.0 + p.1 + 1
count-add_event none (events, skipped) = ground arith
count-add_event (some e) (events, skipped) = ground arith

count-read_alerts :
    (read : AlertItem → Option Event) (alerts : List AlertItem)
    → length (read_alerts read alerts).0 + (read_alerts read alerts).1 ≡ length alerts
count-read_alerts read [] = ground arith
count-read_alerts read (a ∷ alerts) =
    ground
      (arith, count-add_event (read a) (read_alerts read alerts), count-read_alerts read alerts)

-- With at most 1,000 alerts, each is an event or counted as skipped; with more, none is taken.
pub parse_alertmanager-count :
    (hostname : Text → Option Text) (parse : Text → Option (ℕ × Time))
    (digest : List (Text × Value) → Text) (cfg : AlertSettings) (alerts : List AlertItem)
    → count_answered (parse_alertmanager hostname parse digest cfg (some alerts))
      ≡ (if leb (length alerts) 1_000 then length alerts else 0)
unfolding parse_alertmanager
parse_alertmanager-count hostname parse digest cfg alerts =
    ground (arith, count-read_alerts (read_alert hostname parse digest cfg) alerts)
