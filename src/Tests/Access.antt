-- ===== src/Tests/Access.antt =====
-- The theorems on access at a proxy, a script and a tenant's token.
use nautobot_maps.Prelude.{
  ◌≡◌, refl, true, false, not, ◌&&◌, [], ◌∷◌, any, Option, none, some, String, str_eq, ◌==◌, leb,
  ◌≤◌, if◌then◌else◌, arith,
}
use nautobot_maps.Text.{text, stripped}
use nautobot_maps.Tokens.Table.{Role, Token, Table}
use nautobot_maps.Tokens.Service.{token_state, revoke}
use nautobot_maps.Tokens.Verified.{is_active}
use nautobot_maps.Tokens.Kept.{here}
use nautobot_maps.Access.User.{
  Mode, Address, Settings, Request, User, user_of, anonymous, bearer_token, groups_of, resolve_user,
  role_level, v4, v6,
}
use nautobot_maps.Access.Rules.{
  token_invalid, is_none, role_problem, route_problem, check_request, may_administer,
  is_status_token,
}
use nautobot_maps.Access.Proxied.{is_from_proxy, group_level, role_problem-proxied}
use nautobot_maps.Access.Refused.{
  check_request-revoked, route_problem-status_token, role_problem-token,
}

abbrev digest : String → String
digest s = s

abbrev parse : String → Option Address
parse s = if str_eq s "10.0.0.1" then some (Address.v4 1) else some (Address.v6 7 (some 2))

abbrev hostname : String → Option String
hostname s = some s

abbrev behind_proxy : Settings
behind_proxy = record {
  auth_mode = Mode.header;
  auth_header_user = "X-Forwarded-User";
  auth_header_groups = "X-Forwarded-Groups";
  auth_default_role = "viewer";
  auth_viewer_groups = [];
  auth_operator_groups = text "noc" ∷ [];
  auth_admin_groups = text "netadmins" ∷ [];
  auth_require_viewer = false;
  auth_trusted_proxies = (λ a. elim a [ v4 n ↦ n == 1 | v6 n m ↦ false ]) ∷ [];
  auth_proxy_secret = "";
  allow_unauthenticated_writes = false;
  cors_origins = [];
}

abbrev with_token : Request
with_token = record {
  method = "POST";
  path = "/api/v1/tokens";
  host = "10.0.0.9";
  headers = λ name. if str_eq name "authorization" then "Bearer nmt_abc" else "";
}

abbrev proxied : Request
proxied = record with_token {
  host = "10.0.0.1";
  headers = λ name.
      if str_eq name "X-Forwarded-User"
      then "ann"
      else if str_eq name "X-Forwarded-Groups"
      then "users; NOC"
      else "";
}

abbrev script : Token
script = record {
  id = 1;
  name = "script";
  token_hash = "nmt_abc";
  prefix = "nmt_abc";
  role = Role.viewer;
  tenant = none;
  created_by = "ann";
  created_at = 1_000_000;
  expires_at = some 5_000_000;
  last_used_at = none;
  revoked_at = none;
  revoked_by = "";
}

abbrev one_token : Table
one_token = record { rows = script ∷ []; next_id = 2 }

token_given : str_eq (bearer_token with_token) "" ≡ false
unfolding bearer_token
token_given = refl

token_expired :
    any
      (λ row.
        str_eq row.token_hash (digest (bearer_token with_token))
        && is_active (token_state row 6_000_000))
      one_token.rows
    ≡ false
unfolding bearer_token token_state
token_expired = refl

only_script :
    any
      (λ row. str_eq row.token_hash (digest (bearer_token with_token)) && not (row.id == 1))
      (revoke 1 2_000_000 "bob" one_token).1.rows
    ≡ false
unfolding bearer_token revoke
only_script = refl

check_request-revoked_example :
    check_request hostname with_token
      (resolve_user digest parse with_token 3_000_000 behind_proxy
        (some (revoke 1 2_000_000 "bob" one_token).1)).0
      behind_proxy
    ≡ some token_invalid
check_request-revoked_example =
    check_request-revoked digest parse hostname with_token 1 2_000_000 3_000_000 "bob" behind_proxy
      one_token (revoke 1 2_000_000 "bob" one_token).1 (ground arith) here only_script token_given
      refl

no_token : str_eq (bearer_token proxied) "" ≡ true
unfolding bearer_token
no_token = refl

role_problem-proxied_example :
    is_none (
      role_problem
        (resolve_user digest parse proxied 3_000_000 behind_proxy none).0
        behind_proxy
        "operator"
        "POST"
        true)
    ≡ (is_from_proxy parse proxied behind_proxy
        && (not (str_eq (stripped (proxied.headers "X-Forwarded-User")) "")
            && leb
                (role_level "operator")
                (group_level behind_proxy (groups_of (proxied.headers "X-Forwarded-Groups")))))
role_problem-proxied_example =
    role_problem-proxied digest parse proxied 3_000_000 behind_proxy none "operator" true refl
      no_token

-- The request of the operator ann, and the same one from elsewhere.
run-role_problem :
    (is_none (
        role_problem
          (resolve_user digest parse proxied 0 behind_proxy none).0
          behind_proxy
          "operator"
          "POST"
          true)
      ≡ true)
    × (is_none (
          role_problem
            (resolve_user digest parse (record proxied { host = "x" }) 0 behind_proxy none).0
            behind_proxy
            "operator"
            "POST"
            true)
        ≡ false)
unfolding role_problem resolve_user
run-role_problem = (refl, refl)

abbrev page_token : User
page_token =
    user_of Mode.header (some (record { name = "page"; role = Role.status; tenant = "ACME" }))

is_page_token : is_status_token page_token ≡ true
unfolding is_status_token
is_page_token = refl

viewer_level : 1 ≤ role_level "viewer"
unfolding role_level
viewer_level = ground arith

route_problem-status_token_example :
    is_none (route_problem hostname with_token page_token behind_proxy "viewer" false) ≡ false
route_problem-status_token_example =
    route_problem-status_token hostname with_token page_token behind_proxy "viewer" false
      is_page_token viewer_level

abbrev open_writes : Settings
open_writes = record behind_proxy { auth_mode = Mode.disabled; allow_unauthenticated_writes = true }

anyone_administers : may_administer (anonymous Mode.disabled) open_writes ≡ true
unfolding may_administer
anyone_administers = refl

role_problem-token_example :
    is_none (
      role_problem
        (user_of Mode.disabled (some (record { name = "script"; role = Role.viewer; tenant = "" })))
        open_writes
        "operator"
        "GET"
        true)
    ≡ leb (role_level "operator") (role_level "viewer")
role_problem-token_example =
    role_problem-token (record { name = "script"; role = Role.viewer; tenant = "" }) open_writes
      "operator" "GET" true refl refl
