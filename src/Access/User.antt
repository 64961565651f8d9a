-- ===== src/Access/User.antt =====
-- Who is calling: `bearer_token`, `from_trusted_proxy`, `role_from_groups` and `resolve_user` of
-- auth_service.py. Parsing an address and the networks of AUTH_TRUSTED_PROXIES are parameters.
use Prim.Native.Char.{code, Char}
use nautobot_maps.Prelude.{
  ℕ, Bool, true, false, not, ◌&&◌, ◌||◌, List, [], ◌∷◌, map, Option, none, some, String, str_eq,
  ◌==◌, if◌then◌else◌, filter, any,
}
use nautobot_maps.Text.{Text, text, text_eq, is_empty, lower, strip, is_in, stripped, joined}
use nautobot_maps.Availability.Interval.{Time}
use nautobot_maps.Tokens.Table.{Role, viewer, operator, admin, status, Table}
use nautobot_maps.Tokens.Service.{Access, is_token, verify}

pub data Mode : Type 0 where
  disabled header : Mode
  -- Another value, which the start of the program refuses.
  unsupported : Mode

-- An address as the library parses it: an IPv6 one with the IPv4 address that it maps, if it does.
pub data Address : Type 0 where
  v4 : ℕ → Address
  v6 : ℕ → Option ℕ → Address

pub record Settings : Type 0 where
  pub auth_mode : Mode
  pub auth_header_user : String
  pub auth_header_groups : String
  pub auth_default_role : String
  pub auth_viewer_groups : List Text
  pub auth_operator_groups : List Text
  pub auth_admin_groups : List Text
  pub auth_require_viewer : Bool
  pub auth_trusted_proxies : List (Address → Bool)
  pub auth_proxy_secret : String
  pub allow_unauthenticated_writes : Bool
  pub cors_origins : List String

-- A request. A header that is missing is "".
pub record Request : Type 0 where
  pub method : String
  pub path : String
  pub host : String
  pub headers : String → String

pub record User : Type 0 where
  pub is_authenticated : Bool
  pub username : String
  pub groups : List String
  pub role : String
  pub auth_mode : Mode
  pub token : String
  pub tenant : String
  pub token_rejected : Bool

abbrev pub anonymous : Mode → User
anonymous mode = record {
  is_authenticated = false;
  username = "";
  groups = [];
  role = "";
  auth_mode = mode;
  token = "";
  tenant = "";
  token_rejected = false;
}

-- `s.strip().lower()`
unfoldable pub normalized : String → Text
unfolding lower strip
normalized s = lower (strip (text s))

unfoldable pub role_level : String → ℕ
unfolding normalized
role_level role =
    let s = normalized role in
    if text_eq s (text "viewer")
    then 1
    else if text_eq s (text "operator")
    then 2
    else if text_eq s (text "admin")
    then 3
    else 0

abbrev pub shares : List Text → List Text → Bool
shares names others = any (λ n. is_in n others) names

unfoldable pub role_from_groups : List String → Settings → String
unfolding normalized
role_from_groups groups cfg =
    let names = filter (λ n. not (is_empty n)) (map normalized groups) in
    if shares names cfg.auth_admin_groups
    then "admin"
    else if shares names cfg.auth_operator_groups
    then "operator"
    else if shares names cfg.auth_viewer_groups
    then "viewer"
    else cfg.auth_default_role

-- `s.partition(" ")`, less the separator.
abbrev pub partition : String → String × String
partition String.[] = (String.[], String.[])
partition (String.◌∷◌ c s) =
    let (scheme, value) = partition s in
    if code c == 32 then (String.[], s) else (String.◌∷◌ c scheme, value)

unfoldable pub bearer_of : String → String
unfolding stripped lower is_token
bearer_of authorization =
    let (scheme, rest) = partition (stripped authorization) in
    let value = stripped rest in
    if text_eq (lower (text scheme)) (text "bearer") && is_token value then value else ""

unfoldable pub bearer_token : Request → String
unfolding bearer_of
bearer_token r = bearer_of (r.headers "authorization")

abbrev pub role_name : Role → String
role_name viewer = "viewer"
role_name operator = "operator"
role_name admin = "admin"
role_name status = "status"

abbrev pub user_of : Mode → Option Access → User
user_of mode none = record (anonymous mode) { token_rejected = true }
user_of mode (some found) = record (anonymous mode) {
  is_authenticated = true;
  username = joined "token:" found.name;
  role = role_name found.role;
  token = found.name;
  tenant = found.tenant;
}

-- The database, or none while it can't be reached.
abbrev pub verify_on :
    (String → String) → String → Time → Option Table → Option Access × Option Table
verify_on digest token now none = (none, none)
verify_on digest token now (some t) =
    let (found, after) = verify digest token now t in (found, some after)

-- `_token_user`, with `_verify_token`.
unfoldable pub token_user :
    (String → String) → String → Time → Settings → Option Table → User × Option Table
unfolding verify
token_user digest token now cfg t =
    let (found, after) = verify_on digest token now t in (user_of cfg.auth_mode found, after)

-- The IPv4 address of a mapped one.
abbrev pub unmapped : Address → Address
unmapped (v6 n (some m)) = v4 m
unmapped a = a

abbrev pub is_trusted : Settings → String → Option Address → Bool
is_trusted cfg sent none = false
is_trusted cfg sent (some a) =
    any (λ network. network (unmapped a)) cfg.auth_trusted_proxies
    && (str_eq cfg.auth_proxy_secret "" || str_eq sent cfg.auth_proxy_secret)

unfoldable pub from_trusted_proxy : (String → Option Address) → Request → Settings → Bool
from_trusted_proxy parse r cfg = is_trusted cfg (r.headers "X-Auth-Proxy-Secret") (parse r.host)

-- `re.split(r"[;,]", s)`
abbrev pub add_character : Char → List String → List String
add_character c [] = String.◌∷◌ c String.[] ∷ []
add_character c (s ∷ l) = String.◌∷◌ c s ∷ l

abbrev pub split_groups : String → List String
split_groups String.[] = "" ∷ []
split_groups (String.◌∷◌ c s) =
    let rest = split_groups s in
    if code c == b';' || code c == b',' then "" ∷ rest else add_character c rest

unfoldable pub groups_of : String → List String
unfolding stripped
groups_of s = filter (λ g. not (str_eq g "")) (map stripped (split_groups s))

-- The user that the proxy's headers name.
unfoldable pub proxy_user : Request → Settings → User
unfolding groups_of role_from_groups
proxy_user r cfg =
    let username = stripped (r.headers cfg.auth_header_user) in
    let groups = groups_of (r.headers cfg.auth_header_groups) in
    record (anonymous cfg.auth_mode) {
      is_authenticated = not (str_eq username "");
      username = username;
      groups = groups;
      role = role_from_groups groups cfg;
    }

abbrev pub is_header : Mode → Bool
is_header header = true
is_header _ = false

abbrev pub is_disabled : Mode → Bool
is_disabled disabled = true
is_disabled _ = false

unfoldable pub resolve_user :
    (String → String)
    → (String → Option Address)
    → Request
    → Time
    → Settings
    → Option Table
    → User × Option Table
unfolding bearer_token token_user from_trusted_proxy proxy_user
resolve_user digest parse r now cfg t =
    let token = bearer_token r in
    if not (str_eq token "")
    then token_user digest token now cfg t
    else if not (is_header cfg.auth_mode) || not (from_trusted_proxy parse r cfg)
    then (anonymous cfg.auth_mode, t)
    else (proxy_user r cfg, t)
