-- ===== src/Webhooks/Value.antt =====
-- What the values of a webhook's JSON say: devices, times and texts.
use nautobot_maps.Prelude.{
  ℕ, Bool, ◌&&◌, List, [], ◌∷◌, Option, none, some, leb, ltb, ◌==◌, length, if◌then◌else◌,
}
use nautobot_maps.Text.{Text, text, text_eq, lower, strip, has_part, first_codes, until, count_code}
use nautobot_maps.Availability.Interval.{Time}

abbrev pub max_alerts : ℕ
max_alerts = 1_000

abbrev pub max_key_length : ℕ
max_key_length = 255

abbrev pub max_summary_length : ℕ
max_summary_length = 500

-- A JSON value: missing, null, a string, a whole number by its digits, or anything else. A `status` of
-- Alertmanager that is a list or an object, on which Python's lookup raises, is left out.
pub data Value : Type 0 where
  missing null : Value
  string : Text → Value
  number : Text → Value
  other : Value

pub data WebhookError : Type 0 where
  not_alertmanager too_many_alerts wrong_count not_object : WebhookError
  device_required status_unknown source_not_allowed id_not_allowed id_too_long not_a_time :
      WebhookError

pub data Parsed {ℓ} (A : Type ℓ) : Type ℓ where
  refused : WebhookError → Parsed A
  parsed : A → Parsed A

pub record Event : Type 0 where
  pub source : Text
  pub key : Text
  pub device : Text
  pub is_down : Bool
  pub summary : Text
  pub started_at : Option Time

-- Whether the library finds a host name in the URL.
abbrev pub or_empty : Option Text → Text
or_empty none = []
or_empty (some s) = s

abbrev pub host_of : (Text → Option Text) → Text → Text
host_of hostname [] = []
host_of hostname (c ∷ s) =
    if has_part (text "://") (c ∷ s)
    then or_empty (hostname (c ∷ s))
    else if c == b'[' && ltb 0 (count_code b']' s)
    then until b']' s
    else if count_code b':' (c ∷ s) == 1
    then until b':' (c ∷ s)
    else c ∷ s

unfoldable pub short_key : Text → Text
unfolding strip lower
short_key s = let key = lower (strip s) in if leb (length key) max_key_length then key else []

unfoldable pub device_key : (Text → Option Text) → Value → Text
unfolding strip short_key has_part
device_key hostname (string s) = short_key (host_of hostname (strip s))
device_key hostname _ = []

-- `_time`: `parse` gives the year and the time, in UTC where no zone is given.
abbrev pub since_2000 : Option (ℕ × Time) → Option Time
since_2000 none = none
since_2000 (some (year, at)) = if ltb year 2_000 then none else some at

abbrev pub time_of : (Text → Option (ℕ × Time)) → Value → Option Time
time_of parse (string s) = since_2000 (parse s)
time_of parse _ = none

-- `_text`
unfoldable pub limited_text : Value → ℕ → Text
unfolding strip
limited_text (string s) limit = first_codes limit (strip s)
limited_text _ limit = []

abbrev pub string_or_empty : Value → Text
string_or_empty (string s) = s
string_or_empty _ = []

abbrev pub get : Text → List (Text × Value) → Value
get k [] = missing
get k ((j, v) ∷ d) = if text_eq k j then v else get k d
