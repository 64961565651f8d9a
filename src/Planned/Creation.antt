-- ===== src/Planned/Creation.antt =====
-- What the windows of a request are, when it is not refused, and a kind of request that never is.
use nautobot_maps.Prelude.{
  ℕ, ◌+◌, ◌-◌, ◌*◌, ◌≤◌, ◌<◌, ◌≡◌, refl, ap, Bool, true, false, ◌&&◌, List, [], ◌∷◌, map, none,
  String, ltb, leb, arith, if◌then◌else◌, length, all, suc,
}
use nautobot_maps.Availability.Interval.{Time}
use nautobot_maps.Planned.Window.{Window, state, is_open_state, minute}
use nautobot_maps.Text.{stripped, count_characters}
use nautobot_maps.Planned.Request.{
  Item, text_item, other_item, Field, absent, string, items, whole, other, Body, Moment, Result,
  raised, value, and_then, max_duration, max_devices, max_sites, max_reason_length, has_text,
  is_text_item, texts_of, unique, unique_from, checked_sites, one_site, many_sites, read_site_ids,
  read_reason, checked_devices, read_device_ids, read_start, read_end, checked_period, targets,
  new_rows, create, site_id_required, sites_of,
}

-- The value has the property, if it is one.
abbrev pub Holds {ℓ} : {A : Type ℓ} → (A → Type 0) → Result A → Type 0
Holds P (raised e) = Unit
Holds P (value a) = P a

Holds-and_then {ℓ} :
    {A B : Type ℓ} (P : A → Type 0) (Q : B → Type 0) (r : Result A) (f : A → Result B)
    → Holds P r
    → ((a : A) → P a → Holds Q (f a))
    → Holds Q (and_then r f)
Holds-and_then P Q (raised e) f p q = tt
Holds-and_then P Q (value a) f p q = q a p

Holds-if {ℓ} :
    {A : Type ℓ} (P : A → Type 0) (b : Bool) (r s : Result A)
    → (b ≡ true → Holds P r)
    → (b ≡ false → Holds P s)
    → Holds P (if b then r else s)
Holds-if P true r s h k = h refl
Holds-if P false r s h k = k refl

-- From one to 200 of something.
abbrev pub IsBounded {ℓ} : {A : Type ℓ} → List A → Type 0
IsBounded l = (0 < length l) × (length l ≤ 200)

unique_from-pos : (s : String) (l : List String) → 0 < length (unique_from [] (s ∷ l))
unfolding unique_from
unique_from-pos s l = ground arith

checked_sites-IsBounded : (l : List String) → 0 < length l → Holds IsBounded (checked_sites l)
unfolding checked_sites
checked_sites-IsBounded l h =
    Holds-if IsBounded (ltb max_sites (length l)) _ _ (λ e. tt) (λ e. (h, ground arith))

many_sites-IsBounded : (l : List Item) → Holds IsBounded (many_sites l)
unfolding unique
many_sites-IsBounded [] = tt
many_sites-IsBounded (text_item s ∷ l) =
    Holds-if IsBounded (has_text s && all is_text_item l) _ _
      (λ e.
        checked_sites-IsBounded (unique (texts_of (text_item s ∷ l)))
          (unique_from-pos (stripped s) (texts_of l)))
      (λ e. tt)
many_sites-IsBounded (other_item ∷ l) = tt

one_site-IsBounded : (f : Field) → Holds IsBounded (one_site f)
one_site-IsBounded (string s) =
    Holds-if IsBounded (has_text s) (value (stripped s ∷ [])) (raised site_id_required)
      (λ e. ground arith) (λ e. tt)
one_site-IsBounded absent = tt
one_site-IsBounded (items l) = tt
one_site-IsBounded (whole n) = tt
one_site-IsBounded (other b) = tt

read_site_ids-IsBounded : (body : Body) → Holds IsBounded (read_site_ids body)
unfolding read_site_ids
read_site_ids-IsBounded body =
    elim body.site_ids as (λ f. Holds IsBounded (sites_of body.site_id f)) [
      | absent ↦ one_site-IsBounded body.site_id
      | string s ↦ tt
      | items l ↦ many_sites-IsBounded l
      | whole n ↦ tt
      | other b ↦ tt
    ]

-- A period that may be planned.
abbrev pub IsPlannable : Time → Time × Time → Type 0
IsPlannable current (starts, ends) =
    (starts < ends) × (current < ends) × (ends ≤ starts + max_duration)

checked_period-IsPlannable :
    (current starts ends : Time) → Holds (IsPlannable current) (checked_period current starts ends)
unfolding checked_period
checked_period-IsPlannable current starts ends =
    Holds-if (IsPlannable current) (leb ends starts) _ _ (λ e. tt)
      (λ a.
        Holds-if (IsPlannable current) (leb ends current) _ _ (λ e. tt)
          (λ b.
            Holds-if (IsPlannable current) (ltb max_duration (ends - starts)) _ _ (λ e. tt)
              (λ c. ground arith)))

-- A window that can be on now or later, and is not over.
abbrev pub is_valid_new : Time → Window → Bool
is_valid_new current w =
    ltb w.starts_at w.ends_at
    && ltb current w.ends_at
    && leb w.ends_at (w.starts_at + max_duration)
    && is_open_state (state w current)

new_rows-valid :
    (current : Time) (id : ℕ) (p : Time × Time) (reason by batch : String)
    (l : List (String × String))
    → IsPlannable current p
    → (all (is_valid_new current) (new_rows id p.0 p.1 reason by batch l) ≡ true)
      × (length (new_rows id p.0 p.1 reason by batch l) ≡ length l)
unfolding new_rows state
new_rows-valid current id p reason by batch [] h = (refl, refl)
new_rows-valid current id p reason by batch (t ∷ l) h =
    ground (arith, new_rows-valid current (id + 1) p reason by batch l h)

rows_new :
    (current : Time) (id : ℕ) (p : Time × Time) (reason by batch : String)
    (l : List (String × String))
    → IsPlannable current p
    → IsBounded l
    → IsBounded (new_rows id p.0 p.1 reason by batch l)
      × (all (is_valid_new current) (new_rows id p.0 p.1 reason by batch l) ≡ true)
rows_new current id p reason by batch l h b =
    let (valid, same) = new_rows-valid current id p reason by batch l h in
    ((omega (arith, same, b.0), omega (arith, same, b.1)), valid)

checked_devices-le :
    (sites devices : List String)
    → Holds (λ ids. length ids ≤ max_devices) (checked_devices sites devices)
unfolding checked_devices
checked_devices-le sites devices =
    Holds-if (λ ids. length ids ≤ max_devices) (ltb max_devices (length devices)) _ _ (λ e. tt)
      (λ e.
        Holds-if (λ ids. length ids ≤ max_devices) (ltb 0 (length devices) && ltb 1 (length sites))
          _ _ (λ f. tt) (λ f. ground arith))

read_device_ids-le :
    (sites : List String) (f : Field)
    → Holds (λ ids. length ids ≤ max_devices) (read_device_ids sites f)
unfolding read_device_ids
read_device_ids-le sites absent = checked_devices-le sites []
read_device_ids-le sites (items l) =
    Holds-if (λ ids. length ids ≤ max_devices) (all is_text_item l) _ _
      (λ e. checked_devices-le sites (unique (texts_of l))) (λ e. tt)
read_device_ids-le sites (string s) = tt
read_device_ids-le sites (whole n) = tt
read_device_ids-le sites (other b) = tt

length-map {ℓ κ} : {A : Type ℓ} {B : Type κ} (f : A → B) (l : List A) → length (map f l) ≡ length l
length-map f [] = refl
length-map f (x ∷ l) = ap suc (length-map f l)

targets-IsBounded :
    (sites devices : List String)
    → IsBounded sites
    → length devices ≤ max_devices
    → IsBounded (targets sites devices)
targets-IsBounded [] [] b d = b
targets-IsBounded [] (e ∷ devices) b d = b
targets-IsBounded (s ∷ sites) [] b d =
    ground (arith, length-map {B = String × String} (λ s. (s, "")) sites)
targets-IsBounded (s ∷ sites) (e ∷ devices) b d =
    ground (arith, length-map {B = String × String} (λ e. (s, e)) devices)

Holds-all {ℓ} : {A : Type ℓ} (r : Result A) → Holds (λ a. Unit) r
Holds-all (raised e) = tt
Holds-all (value a) = tt

-- What the windows of one request have in common.
abbrev pub AreNew : Time → List Window → Type 0
AreNew current windows = IsBounded windows × (all (is_valid_new current) windows ≡ true)

-- `create` refuses a request, or makes from one to 200 windows, each of which ends after it starts
-- and after now, lasts 14 days at most, and is active or upcoming.
pub create-AreNew :
    (read_time : String → Moment) (current : Time) (next_id : ℕ) (batch_id created_by : String)
    (body : Body)
    → Holds (AreNew current) (create read_time current next_id batch_id created_by body)
unfolding create
create-AreNew read_time current next_id batch_id created_by body =
    Holds-and_then IsBounded (AreNew current) (read_site_ids body) _ (read_site_ids-IsBounded body)
      (λ sites bounded.
        Holds-and_then (λ r. Unit) (AreNew current) (read_reason body.reason) _
          (Holds-all (read_reason body.reason))
          (λ reason u.
            Holds-and_then (λ ids. length ids ≤ max_devices) (AreNew current)
              (read_device_ids sites body.device_ids) _ (read_device_ids-le sites body.device_ids)
              (λ devices few.
                Holds-and_then (λ t. Unit) (AreNew current)
                  (read_start read_time current body.starts_at) _
                  (Holds-all (read_start read_time current body.starts_at))
                  (λ starts v.
                    Holds-and_then (λ t. Unit) (AreNew current) (read_end read_time starts body) _
                      (Holds-all (read_end read_time starts body))
                      (λ ends w.
                        Holds-and_then (IsPlannable current) (AreNew current)
                          (checked_period current starts ends) _
                          (checked_period-IsPlannable current starts ends)
                          (λ period plannable.
                            rows_new current next_id period reason created_by batch_id
                              (targets sites devices) plannable
                              (targets-IsBounded sites devices bounded few)))))))

-- A request for a whole site, for so many minutes from now.
abbrev pub from_now : String → String → ℕ → Body
from_now site reason minutes = record {
  site_id = string site;
  site_ids = absent;
  device_ids = absent;
  reason = string reason;
  starts_at = absent;
  ends_at = absent;
  duration_minutes = whole minutes;
}

-- A request for a site with a name, with a reason of up to 200 characters, and for at least one minute
-- and at most 14 days from now, is never refused: it makes one window, of that site and that length.
pub create-from_now :
    (read_time : String → Moment) (current : Time) (next_id : ℕ) (batch_id created_by : String)
    (site reason : String) (minutes : ℕ)
    → has_text site ≡ true
    → has_text reason ≡ true
    → count_characters reason ≤ max_reason_length
    → 1 ≤ minutes
    → minutes * minute ≤ max_duration
    → create read_time current next_id batch_id created_by (from_now site reason minutes)
      ≡ value (
          record {
            id = next_id;
            site_id = stripped site;
            device_id = "";
            starts_at = current;
            ends_at = current + minutes * minute;
            ended_at = none;
            ended_by = "";
            reason = stripped reason;
            created_by = created_by;
            batch_id = batch_id;
          }
          ∷ [])
unfolding create read_site_ids read_reason read_device_ids checked_devices read_start read_end
    checked_period new_rows
create-from_now read_time current next_id batch_id created_by site reason minutes s r c m d =
    rw (s, r) (ground arith)
