-- ===== src/Planned/Request.antt =====
-- `_site_ids`, `_when` and `create` of maintenance_service.py: a request becomes windows or is refused.
-- A field of the body keeps of its JSON value what the checks look at. Reading an ISO-8601 text is a
-- parameter, as are the time of the call, the next id of the table and the new batch's id.
use nautobot_maps.Prelude.{
  ℕ, ◌+◌, ◌-◌, ◌*◌, Bool, true, false, not, ◌&&◌, List, [], ◌∷◌, map, none, String, str_eq, ltb,
  leb, ◌==◌, if◌then◌else◌, length, any, all,
}
use nautobot_maps.Text.{stripped, count_characters}
use nautobot_maps.Availability.Interval.{Time}
use nautobot_maps.Planned.Window.{Window, minute}

-- An element of a JSON list: a string or anything else.
pub data Item : Type 0 where
  text_item : String → Item
  other_item : Item

-- A JSON value: missing or null, a string, a list, a whole number from 0 on, or any other value, with
-- whether it counts as true.
pub data Field : Type 0 where
  absent : Field
  string : String → Field
  items : List Item → Field
  whole : ℕ → Field
  other : Bool → Field

pub record Body : Type 0 where
  pub site_id : Field
  pub site_ids : Field
  pub device_ids : Field
  pub reason : Field
  pub starts_at : Field
  pub ends_at : Field
  pub duration_minutes : Field

-- What an ISO-8601 text says.
pub data Moment : Type 0 where
  unreadable without_zone : Moment
  at_time : Time → Moment

pub data WindowError : Type 0 where
  site_ids_must_be_list too_many_sites site_id_required : WindowError
  reason_required reason_too_long : WindowError
  device_ids_must_be_list too_many_devices devices_of_one_site : WindowError
  not_a_time no_time_zone duration_not_positive window_too_long end_required : WindowError
  ends_before_start already_ended : WindowError

-- A value, or the error raised.
pub data Result {ℓ} (A : Type ℓ) : Type ℓ where
  raised : WindowError → Result A
  value : A → Result A

abbrev pub and_then {ℓ} : {A B : Type ℓ} → Result A → (A → Result B) → Result B
and_then (raised e) f = raised e
and_then (value a) f = f a

abbrev pub max_duration : ℕ
max_duration = 1_209_600_000_000

abbrev pub max_reason_length : ℕ
max_reason_length = 200

abbrev pub max_devices : ℕ
max_devices = 200

abbrev pub max_sites : ℕ
max_sites = 200

-- `s.strip()`, as a test.
abbrev pub has_text : String → Bool
has_text s = not (str_eq (stripped s) "")

abbrev pub is_text_item : Item → Bool
is_text_item (text_item s) = has_text s
is_text_item other_item = false

abbrev pub texts_of : List Item → List String
texts_of [] = []
texts_of (text_item s ∷ l) = stripped s ∷ texts_of l
texts_of (other_item ∷ l) = texts_of l

-- `list(dict.fromkeys(...))`: the first of each, in order.
unfoldable pub unique_from : List String → List String → List String
unique_from seen [] = []
unique_from seen (s ∷ l) =
    let rest = unique_from (s ∷ seen) l in if any (str_eq s) seen then rest else s ∷ rest

unfoldable pub unique : List String → List String
unfolding unique_from
unique l = unique_from [] l

unfoldable pub checked_sites : List String → Result (List String)
checked_sites ids = if ltb max_sites (length ids) then raised too_many_sites else value ids

abbrev pub one_site : Field → Result (List String)
one_site (string s) = if has_text s then value (stripped s ∷ []) else raised site_id_required
one_site _ = raised site_id_required

abbrev pub many_sites : List Item → Result (List String)
many_sites [] = raised site_ids_must_be_list
many_sites (i ∷ l) =
    if all is_text_item (i ∷ l)
    then checked_sites (unique (texts_of (i ∷ l)))
    else raised site_ids_must_be_list

-- `site_ids`, for several sites, or else `site_id`.
abbrev pub sites_of : Field → Field → Result (List String)
sites_of site_id absent = one_site site_id
sites_of site_id (items l) = many_sites l
sites_of site_id _ = raised site_ids_must_be_list

-- `_site_ids`
unfoldable pub read_site_ids : Body → Result (List String)
unfolding checked_sites
read_site_ids body = sites_of body.site_id body.site_ids

unfoldable pub read_reason : Field → Result String
read_reason (string s) =
    if not (has_text s)
    then raised reason_required
    else if ltb max_reason_length (count_characters s)
    then raised reason_too_long
    else value s
read_reason _ = raised reason_required

unfoldable pub checked_devices : List String → List String → Result (List String)
checked_devices site_ids ids =
    if ltb max_devices (length ids)
    then raised too_many_devices
    else if ltb 0 (length ids) && ltb 1 (length site_ids)
    then raised devices_of_one_site
    else value ids

unfoldable pub read_device_ids : List String → Field → Result (List String)
read_device_ids site_ids absent = checked_devices site_ids []
read_device_ids site_ids (items l) =
    if all is_text_item l
    then checked_devices site_ids (unique (texts_of l))
    else raised device_ids_must_be_list
read_device_ids site_ids _ = raised device_ids_must_be_list

abbrev pub zoned : Moment → Result Time
zoned unreadable = raised not_a_time
zoned without_zone = raised no_time_zone
zoned (at_time t) = value t

-- `_when`
unfoldable pub when : (String → Moment) → Field → Result Time
when read_time (string s) = if has_text s then zoned (read_time s) else raised not_a_time
when read_time _ = raised not_a_time

-- `body.get(...)`, as a test.
abbrev pub is_given : Field → Bool
is_given absent = false
is_given (string s) = not (str_eq s "")
is_given (items []) = false
is_given (items (i ∷ l)) = true
is_given (whole n) = not (n == 0)
is_given (other b) = b

unfoldable pub read_start : (String → Moment) → Time → Field → Result Time
unfolding when
read_start read_time current field = if is_given field then when read_time field else value current

abbrev pub end_after : Time → Field → Result Time
end_after starts absent = raised end_required
end_after starts (whole n) =
    if n == 0
    then raised duration_not_positive
    else if ltb max_duration (n * minute)
    then raised window_too_long
    else value (starts + n * minute)
end_after starts _ = raised duration_not_positive

unfoldable pub read_end : (String → Moment) → Time → Body → Result Time
unfolding when
read_end read_time starts body = elim body.ends_at [
  | absent ↦ end_after starts body.duration_minutes
  | field ↦ when read_time field
]

unfoldable pub checked_period : Time → Time → Time → Result (Time × Time)
checked_period current starts ends =
    if leb ends starts
    then raised ends_before_start
    else if leb ends current
    then raised already_ended
    else if ltb max_duration (ends - starts)
    then raised window_too_long
    else value (starts, ends)

-- One window for each site, or for each device of the one site: site and device.
abbrev pub targets : List String → List String → List (String × String)
targets site_ids [] = map (λ s. (s, "")) site_ids
targets [] (d ∷ devices) = []
targets (s ∷ sites) (d ∷ devices) = map (λ e. (s, e)) (d ∷ devices)

-- The rows of the `INSERT`, in the order of their ids.
unfoldable pub new_rows :
    ℕ → Time → Time → String → String → String → List (String × String) → List Window
new_rows id starts ends reason created_by batch_id [] = []
new_rows id starts ends reason created_by batch_id ((site_id, device_id) ∷ l) =
    record {
      id = id;
      site_id = site_id;
      device_id = device_id;
      starts_at = starts;
      ends_at = ends;
      ended_at = none;
      ended_by = "";
      reason = stripped reason;
      created_by = created_by;
      batch_id = batch_id;
    }
    ∷ new_rows (id + 1) starts ends reason created_by batch_id l

-- The rows that it adds to the table and answers.
unfoldable pub create : (String → Moment) → Time → ℕ → String → String → Body → Result (List Window)
create read_time current next_id batch_id created_by body =
    and_then (read_site_ids body) (λ site_ids. and_then (read_reason body.reason) (λ reason.
      and_then (read_device_ids site_ids body.device_ids) (λ device_ids.
        and_then (read_start read_time current body.starts_at) (λ starts.
          and_then (read_end read_time starts body) (λ ends.
            and_then (checked_period current starts ends) (λ period. value (
              new_rows next_id period.0 period.1 reason created_by batch_id
                (targets site_ids device_ids))))))))
