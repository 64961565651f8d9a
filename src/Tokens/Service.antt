-- ===== src/Tokens/Service.antt =====
-- `create`, `list_tokens`, `purge`, `revoke` and `verify` of token_service.py. The digest of a token, its
-- random characters and the time of the call are parameters.
use nautobot_maps.Prelude.{
  ℕ, ◌+◌, ◌*◌, Bool, false, not, ◌&&◌, ◌||◌, List, [], ◌∷◌, map, Option, none, some, String, str_eq,
  leb, ltb, if◌then◌else◌, all, any, sort_by,
}
use nautobot_maps.Text.{
  Text, text, starts_with, stripped, count_characters, first_characters, joined,
}
use nautobot_maps.Availability.Interval.{Time}
use nautobot_maps.Planned.Request.{Field, absent, string, whole, has_text}
use nautobot_maps.Tokens.Table.{
  Role, viewer, operator, admin, status, Token, Table, nautobot_tenant_name, Inserted, insert_token,
  list_all, newest_first, is_set, is_by, inactive, revoke_row, get, is_stale, find_active, touch,
}

abbrev pub token_prefix : String
token_prefix = "nmt_"

abbrev pub shown_characters : ℕ
shown_characters = 12

abbrev pub max_tenant_length : ℕ
max_tenant_length = 200

abbrev pub max_name_length : ℕ
max_name_length = 100

abbrev pub max_expiry_days : ℕ
max_expiry_days = 3_650

abbrev pub day : Time
day = 86_400_000_000

abbrev pub last_used_interval : Time
last_used_interval = 300_000_000

pub data TokenError : Type 0 where
  name_is_required name_not_allowed role_unknown : TokenError
  tenant_is_required tenant_unknown tenant_not_allowed days_not_allowed name_exists : TokenError
  -- The database refuses a second row with the hash.
  hash_exists : TokenError

pub data Checked {ℓ} (A : Type ℓ) : Type ℓ where
  refused : TokenError → Checked A
  checked : A → Checked A

abbrev pub if_checked {ℓ} : {A B : Type ℓ} → Checked A → (A → Checked B) → Checked B
if_checked (refused e) f = refused e
if_checked (checked a) f = f a

-- `is_token`, of a string.
unfoldable pub is_token : String → Bool
unfolding count_characters starts_with
is_token value =
    starts_with (text value) (text token_prefix)
    && ltb (count_characters token_prefix) (count_characters value)

pub data TokenState : Type 0 where
  active expired revoked : TokenState

unfoldable pub token_state : Token → Time → TokenState
token_state r at =
    if is_set r.revoked_at then revoked else if is_by r.expires_at at then expired else active

-- `NAME_PATTERN`, of a text without space at its ends.
abbrev pub is_letter_or_digit : ℕ → Bool
is_letter_or_digit c =
    (leb b'A' c && leb c b'Z') || (leb b'a' c && leb c b'z') || (leb b'0' c && leb c b'9')

abbrev pub is_name_character : ℕ → Bool
is_name_character c = is_letter_or_digit c || any (λ d. leb c d && leb d c) (text " ._-")

abbrev pub matches_name : Text → Bool
matches_name [] = false
matches_name (c ∷ s) = is_letter_or_digit c && all is_name_character s

unfoldable pub read_name : Field → Checked String
read_name (string s) =
    if not (has_text s)
    then refused name_is_required
    else if ltb max_name_length (count_characters (stripped s))
        || not (matches_name (text (stripped s)))
    then refused name_not_allowed
    else checked (stripped s)
read_name _ = refused name_is_required

unfoldable pub read_role : Field → Checked Role
read_role (string s) =
    if str_eq s "viewer"
    then checked viewer
    else if str_eq s "operator"
    then checked operator
    else if str_eq s "admin"
    then checked admin
    else if str_eq s "status"
    then checked status
    else refused role_unknown
read_role _ = refused role_unknown

abbrev pub known_tenant : Option String → Checked (Option String)
known_tenant none = refused tenant_unknown
known_tenant (some found) = checked (some found)

abbrev pub status_tenant : List String → Field → Checked (Option String)
status_tenant names (string s) =
    if not (has_text s) || ltb max_tenant_length (count_characters (stripped s))
    then refused tenant_is_required
    else known_tenant (nautobot_tenant_name names (stripped s))
status_tenant names _ = refused tenant_is_required

abbrev pub no_tenant : Field → Checked (Option String)
no_tenant absent = checked none
no_tenant _ = refused tenant_not_allowed

unfoldable pub read_tenant : List String → Role → Field → Checked (Option String)
unfolding nautobot_tenant_name
read_tenant names status tenant = status_tenant names tenant
read_tenant names _ tenant = no_tenant tenant

unfoldable pub read_expiry : Time → Field → Checked (Option Time)
read_expiry now absent = checked none
read_expiry now (whole days) =
    if leb 1 days && leb days max_expiry_days
    then checked (some (now + days * day))
    else refused days_not_allowed
read_expiry now _ = refused days_not_allowed

pub record TokenBody : Type 0 where
  pub name : Field
  pub role : Field
  pub tenant : Field
  pub expires_in_days : Field

-- The row to insert, less its id.
unfoldable pub new_token :
    (String → String) → String → List String → Time → String → TokenBody → Checked Token
unfolding read_name read_role read_tenant read_expiry
new_token digest token names now created_by body = if_checked (read_name body.name) (λ name.
    if_checked (read_role body.role) (λ role.
      if_checked (read_tenant names role body.tenant) (λ tenant.
        if_checked (read_expiry now body.expires_in_days) (λ expires_at. checked (record {
          id = 0;
          name = name;
          token_hash = digest token;
          prefix = first_characters shown_characters token;
          role = role;
          tenant = tenant;
          created_by = created_by;
          created_at = now;
          expires_at = expires_at;
          last_used_at = none;
          revoked_at = none;
          revoked_by = "";
        })))))

-- A row as answered: with its state, and without its hash.
abbrev pub with_state : Time → Token → Token × TokenState
with_state now r = (record r { token_hash = "" }, token_state r now)

pub record Created : Type 0 where
  pub row : Token
  pub state : TokenState
  pub token : String

abbrev pub answer_insert : Time → String → Inserted × Table → Checked Created × Table
answer_insert now token (Inserted.name_conflict, t) = (refused name_exists, t)
answer_insert now token (Inserted.hash_conflict, t) = (refused hash_exists, t)
answer_insert now token (Inserted.inserted_row r, t) = (
  checked (record { row = record r { token_hash = "" }; state = token_state r now; token = token }),
  t,
)

abbrev pub insert_checked : Time → String → Checked Token → Table → Checked Created × Table
insert_checked now token (refused e) t = (refused e, t)
insert_checked now token (checked values) t = answer_insert now token (insert_token values t)

-- `random` is what `secrets.token_urlsafe` gives.
unfoldable pub create_token :
    (String → String)
    → String
    → List String
    → Time
    → String
    → TokenBody
    → Table
    → Checked Created × Table
unfolding new_token insert_token
create_token digest random names now created_by body t =
    let token = joined token_prefix random in
    insert_checked now token (new_token digest token names now created_by body) t

unfoldable pub list_tokens : Option String → Time → Table → List (Token × TokenState)
unfolding list_all
list_tokens none now t = map (with_state now) (list_all none t)
list_tokens (some tenant) now t =
    map (with_state now) (list_all (if str_eq tenant "" then none else some (stripped tenant)) t)

unfoldable pub read_older_than : Field → Checked ℕ
read_older_than absent = checked 0
read_older_than (whole days) =
    if leb days max_expiry_days then checked days else refused days_not_allowed
read_older_than _ = refused days_not_allowed

abbrev pub purge_checked :
    Bool → Time → Checked ℕ → Table → Checked (List (Token × TokenState)) × Table
purge_checked dry_run now (refused e) t = (refused e, t)
purge_checked dry_run now (checked days) t =
    let (rows, after) = inactive now (days * day) (not dry_run) t in
    (checked (map (with_state now) (sort_by newest_first rows)), after)

unfoldable pub purge : Field → Bool → Time → Table → Checked (List (Token × TokenState)) × Table
unfolding read_older_than inactive
purge older_than_days dry_run now t = purge_checked dry_run now (read_older_than older_than_days) t

abbrev pub answer_state : Time → Option Token → Option (Token × TokenState)
answer_state now none = none
answer_state now (some r) = some (with_state now r)

abbrev pub or_row : Option Token → Option Token → Option Token
or_row none o = o
or_row (some r) o = some r

unfoldable pub revoke : ℕ → Time → String → Table → Option (Token × TokenState) × Table
unfolding revoke_row get
revoke id now by t =
    let (row, after) = revoke_row id now by t in
    (answer_state now (or_row row (get id after)), after)

pub record Access : Type 0 where
  pub name : String
  pub role : Role
  pub tenant : String

abbrev pub tenant_or_empty : Option String → String
tenant_or_empty none = ""
tenant_or_empty (some s) = s

abbrev pub access_of : Token → Access
access_of r = record { name = r.name; role = r.role; tenant = tenant_or_empty r.tenant }

abbrev pub answer_found : Time → Option Token → Table → Option Access × Table
answer_found now none t = (none, t)
answer_found now (some r) t = (
  some (access_of r),
  if is_stale now last_used_interval r then touch r.id now last_used_interval t else t,
)

unfoldable pub verify : (String → String) → String → Time → Table → Option Access × Table
unfolding is_token find_active touch
verify digest token now t =
    if is_token token then answer_found now (find_active (digest token) now t) t else (none, t)
