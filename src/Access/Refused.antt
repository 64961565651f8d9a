-- ===== src/Access/Refused.antt =====
-- Who is refused, and who is not.
use nautobot_maps.Prelude.{
  ℕ, ◌≤◌, ◌<◌, ◌≡◌, refl, ap, ◌∙◌, Bool, true, false, not, ◌&&◌, List, [], ◌∷◌, Option, none, some,
  String, str_eq, eq_iff, leb, ◌==◌, arith, any,
}
use nautobot_maps.Text.{lower, strip, strip_left}
use nautobot_maps.Availability.Interval.{Time}
use nautobot_maps.Tokens.Table.{Token, Table, is_set}
use nautobot_maps.Tokens.Service.{Access, token_state, is_token, verify, revoke}
use nautobot_maps.Tokens.Verified.{is_active, verify-accepts}
use nautobot_maps.Tokens.Kept.{Reaches, revoke-never_active}
use nautobot_maps.Access.User.{
  Mode, Address, Settings, Request, User, user_of, token_user, bearer_token, resolve_user,
  role_level, role_name, normalized,
}
use nautobot_maps.Access.Rules.{
  Refusal, token_invalid, disabled_mode_allows, is_unsupported, role_problem, may_administer,
  is_none, is_status_token, is_cross_site_write, public_paths, check_request, route_problem,
  or_problem,
}

rejected :
    (hostname : String → Option String) (r : Request) (mode : Mode) (cfg : Settings)
    (o : Option Access)
    → is_set o ≡ false
    → is_cross_site_write hostname r cfg ≡ false
    → any (str_eq r.path) public_paths ≡ false
    → check_request hostname r (user_of mode o) cfg ≡ some token_invalid
unfolding check_request
rejected hostname r mode cfg none e same path = rw (same, path) refl
rejected hostname r mode cfg (some found) e same path = cc

not_cross_site :
    (hostname : String → Option String) (r : Request) (cfg : Settings)
    → str_eq (bearer_token r) "" ≡ false
    → is_cross_site_write hostname r cfg ≡ false
unfolding is_cross_site_write
not_cross_site hostname r cfg h = ground arith

-- A request with an API token of which no row is active is refused with a 401, in every mode and from
-- any address, on all but the public paths.
pub check_request-token_invalid :
    (digest : String → String) (parse : String → Option Address) (hostname : String → Option String)
    (r : Request) (now : Time) (cfg : Settings) (t : Table)
    → str_eq (bearer_token r) "" ≡ false
    → any
        (λ row. str_eq row.token_hash (digest (bearer_token r)) && is_active (token_state row now))
        t.rows
      ≡ false
    → any (str_eq r.path) public_paths ≡ false
    → check_request hostname r (resolve_user digest parse r now cfg (some t)).0 cfg
      ≡ some token_invalid
unfolding resolve_user token_user
check_request-token_invalid digest parse hostname r now cfg t h inactive path = rw h (
    rejected hostname r cfg.auth_mode cfg (verify digest (bearer_token r) now t).0
      (verify-accepts digest (bearer_token r) now t
        ∙ ap (λ b. is_token (bearer_token r) && b) inactive
        ∙ ground arith)
      (not_cross_site hostname r cfg h) path)

level_of_status : (role : String) → str_eq role "status" ≡ true → role_level role ≡ 0
unfolding role_level
level_of_status role h = rw ((eq_iff role "status").0 h) refl

-- A tenant's status token passes no route that needs a role, in any mode.
pub route_problem-status_token :
    (hostname : String → Option String) (r : Request) (u : User) (cfg : Settings) (role : String)
    (open_when_disabled : Bool)
    → is_status_token u ≡ true
    → 1 ≤ role_level role
    → is_none (route_problem hostname r u cfg role open_when_disabled) ≡ false
unfolding route_problem is_status_token role_problem
route_problem-status_token hostname r u cfg role open_when_disabled h k =
    by_check (check_request hostname r u cfg)
  where
    refused : is_none (role_problem u cfg role r.method open_when_disabled) ≡ false
    refused = ground (arith, level_of_status u.role)

    by_check :
        (o : Option Refusal)
        → is_none (or_problem o (role_problem u cfg role r.method open_when_disabled)) ≡ false
    by_check none = refused
    by_check (some refusal) = refl

admin_level : role_level "admin" ≡ 3
unfolding role_level normalized lower strip strip_left
admin_level = refl

role_level-le : (role : String) → role_level role ≤ 3
unfolding role_level
role_level-le role = ground arith

-- A caller who may administer passes the check of every role, whatever the method.
pub may_administer-role_problem :
    (u : User) (cfg : Settings) (role method : String) (open_when_disabled : Bool)
    → may_administer u cfg ≡ true
    → is_none (role_problem u cfg role method open_when_disabled) ≡ true
unfolding may_administer role_problem disabled_mode_allows
may_administer-role_problem u cfg role method open_when_disabled h =
    ground (arith, admin_level, role_level-le role)

-- In both modes the user of an API token with a name passes the check of exactly the roles up to the
-- token's own.
pub role_problem-token :
    (found : Access) (cfg : Settings) (role method : String) (open_when_disabled : Bool)
    → str_eq found.name "" ≡ false
    → is_unsupported cfg.auth_mode ≡ false
    → is_none (role_problem (user_of cfg.auth_mode (some found)) cfg role method open_when_disabled)
      ≡ leb (role_level role) (role_level (role_name found.role))
unfolding role_problem
role_problem-token found cfg role method open_when_disabled h k = ground arith

none_active :
    (hash : String) (id : ℕ) (now : Time) (l : List Token)
    → any (λ row. row.id == id && is_active (token_state row now)) l ≡ false
    → any (λ row. str_eq row.token_hash hash && not (row.id == id)) l ≡ false
    → any (λ row. str_eq row.token_hash hash && is_active (token_state row now)) l ≡ false
none_active hash id now [] h k = refl
none_active hash id now (row ∷ l) h k = ground (arith, none_active hash id now l)

-- Once a token is revoked, whatever calls follow, every request with it is refused with a 401 on all but
-- the public paths, in every mode and from any address, as long as no row with another id has its hash.
pub check_request-revoked :
    (digest : String → String) (parse : String → Option Address) (hostname : String → Option String)
    (r : Request) (id : ℕ) (revoked_at now : Time) (by : String) (cfg : Settings) (t u : Table)
    → id < t.next_id
    → Reaches digest (revoke id revoked_at by t).1 u
    → any (λ row. str_eq row.token_hash (digest (bearer_token r)) && not (row.id == id)) u.rows
      ≡ false
    → str_eq (bearer_token r) "" ≡ false
    → any (str_eq r.path) public_paths ≡ false
    → check_request hostname r (resolve_user digest parse r now cfg (some u)).0 cfg
      ≡ some token_invalid
check_request-revoked digest parse hostname r id revoked_at now by cfg t u known path only given
      private =
    check_request-token_invalid digest parse hostname r now cfg u given
      (none_active (digest (bearer_token r)) id now u.rows
        (revoke-never_active digest id revoked_at now by t u known path) only)
      private
