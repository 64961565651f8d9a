-- ===== src/Access/Proxied.antt =====
-- Who passes behind a proxy, beside a description of its own of which requests count as the proxy's.
use nautobot_maps.Prelude.{
  ℕ, ◌≡◌, refl, ap, Bool, true, false, not, ◌&&◌, ◌||◌, List, [], ◌∷◌, map, filter, Option, none,
  some, String, str_eq, leb, arith, any, if◌then◌else◌,
}
use nautobot_maps.Text.{Text, is_empty, is_in, stripped, lower, strip, strip_left}
use nautobot_maps.Availability.Interval.{Time}
use nautobot_maps.Tokens.Table.{Table}
use nautobot_maps.Access.User.{
  Address, v4, v6, Settings, Request, bearer_token, is_trusted, from_trusted_proxy, groups_of,
  proxy_user, role_from_groups, shares, resolve_user, is_header, role_level, normalized, unmapped,
}
use nautobot_maps.Access.Rules.{role_problem, is_none}

-- An IPv6 address that stands for an IPv4 one is looked up as that; what is no address is in no network.
abbrev pub is_within : Option Address → (Address → Bool) → Bool
is_within none network = false
is_within (some (v4 n)) network = network (v4 n)
is_within (some (v6 n none)) network = network (v6 n none)
is_within (some (v6 n (some m))) network = network (v4 m)

-- The request comes from a trusted network and, when a secret is configured, brings it.
abbrev pub is_from_proxy : (String → Option Address) → Request → Settings → Bool
is_from_proxy parse r cfg =
    any (is_within (parse r.host)) cfg.auth_trusted_proxies
    && (if str_eq cfg.auth_proxy_secret ""
        then true
        else str_eq (r.headers "X-Auth-Proxy-Secret") cfg.auth_proxy_secret)

-- One of the groups, compared regardless of case and of blanks around it, is listed.
abbrev pub is_member : List Text → List String → Bool
is_member listed groups =
    any (λ g. not (is_empty (normalized g)) && is_in (normalized g) listed) groups

-- The level of the highest role that a group gives, else of the default one.
abbrev pub group_level : Settings → List String → ℕ
group_level cfg groups =
    if is_member cfg.auth_admin_groups groups
    then 3
    else if is_member cfg.auth_operator_groups groups
    then 2
    else if is_member cfg.auth_viewer_groups groups
    then 1
    else role_level cfg.auth_default_role

any_within :
    (a : Address) (l : List (Address → Bool))
    → any (λ network. network (unmapped a)) l ≡ any (is_within (some a)) l
any_within a [] = refl
any_within (v4 n) (network ∷ l) = ap (λ b. network (v4 n) || b) (any_within (v4 n) l)
any_within (v6 n none) (network ∷ l) = ap (λ b. network (v6 n none) || b) (any_within (v6 n none) l)
any_within (v6 n (some m)) (network ∷ l) =
    ap (λ b. network (v4 m) || b) (any_within (v6 n (some m)) l)

none_within : (l : List (Address → Bool)) → any (is_within none) l ≡ false
none_within [] = refl
none_within (network ∷ l) = none_within l

is_trusted-proxy :
    (cfg : Settings) (sent : String) (o : Option Address)
    → is_trusted cfg sent o ≡ (
        any (is_within o) cfg.auth_trusted_proxies
        && (if str_eq cfg.auth_proxy_secret "" then true else str_eq sent cfg.auth_proxy_secret))
is_trusted-proxy cfg sent none = ground (arith, none_within cfg.auth_trusted_proxies)
is_trusted-proxy cfg sent (some a) = ground (arith, any_within a cfg.auth_trusted_proxies)

shares-member :
    (listed : List Text) (groups : List String)
    → shares (filter (λ n. not (is_empty n)) (map normalized groups)) listed
      ≡ is_member listed groups
shares-member listed [] = refl
shares-member listed (g ∷ groups) = ground (arith, shares-member listed groups)

level_of_roles : (role_level "admin" ≡ 3) × (role_level "operator" ≡ 2) × (role_level "viewer" ≡ 1)
unfolding role_level normalized lower strip strip_left
level_of_roles = (refl, refl, refl)

role_level-groups :
    (cfg : Settings) (groups : List String)
    → role_level (role_from_groups groups cfg) ≡ group_level cfg groups
unfolding role_from_groups
role_level-groups cfg groups = ground (
  arith,
  level_of_roles,
  shares-member cfg.auth_admin_groups groups,
  shares-member cfg.auth_operator_groups groups,
  shares-member cfg.auth_viewer_groups groups,
)

-- In header mode a request without an API token passes the check of a role exactly when it comes from
-- an address in a trusted network, brings the proxy's secret if one is set, names a user, and the
-- role is not above the highest one that the groups in its header give, or above the default role when
-- no group is listed.
pub role_problem-proxied :
    (digest : String → String) (parse : String → Option Address) (r : Request) (now : Time)
    (cfg : Settings) (t : Option Table) (role : String) (open_when_disabled : Bool)
    → is_header cfg.auth_mode ≡ true
    → str_eq (bearer_token r) "" ≡ true
    → is_none (
        role_problem (resolve_user digest parse r now cfg t).0 cfg role r.method open_when_disabled)
      ≡ (is_from_proxy parse r cfg
          && (not (str_eq (stripped (r.headers cfg.auth_header_user)) "")
              && leb
                  (role_level role)
                  (group_level cfg (groups_of (r.headers cfg.auth_header_groups)))))
unfolding resolve_user role_problem from_trusted_proxy proxy_user
role_problem-proxied digest parse r now cfg t role open_when_disabled mode given = ground (
  arith,
  is_trusted-proxy cfg (r.headers "X-Auth-Proxy-Secret") (parse r.host),
  role_level-groups cfg (groups_of (r.headers cfg.auth_header_groups)),
)
