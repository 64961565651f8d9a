-- ===== src/Access/Rules.antt =====
-- What a caller may do: `role_problem`, `status_access`, `is_cross_site_write` and `check_request` of
-- auth_service.py, and the two checks of a route as utils/auth.py runs them. The host name in a URL is
-- a parameter.
use nautobot_maps.Prelude.{
  ℕ, Bool, true, false, not, ◌&&◌, ◌||◌, List, [], ◌∷◌, Option, none, some, String, str_eq, leb,
  ltb, if◌then◌else◌, any,
}
use nautobot_maps.Text.{text, text_eq, lower, starts_with, stripped, joined, is_in}
use nautobot_maps.Access.User.{
  Mode, unsupported, Settings, Request, User, normalized, role_level, bearer_token, is_header,
  is_disabled,
}

-- The bodies of the refusals.
pub data Refusal : Type 0 where
  authentication_required authentication_for_change unsupported_mode : Refusal
  insufficient : String → Refusal
  other_tenant cross_site token_invalid status_page_only : Refusal

unfoldable pub status_code : Refusal → ℕ
status_code authentication_required = 401
status_code authentication_for_change = 403
status_code unsupported_mode = 503
status_code (insufficient role) = 403
status_code other_tenant = 403
status_code cross_site = 403
status_code token_invalid = 401
status_code status_page_only = 403

abbrev pub is_safe : String → Bool
is_safe method = any (str_eq method) ("GET" ∷ "HEAD" ∷ "OPTIONS" ∷ [])

unfoldable pub disabled_mode_allows : String → Bool → Settings → Bool
disabled_mode_allows method open_when_disabled cfg =
    is_safe method || open_when_disabled || cfg.allow_unauthenticated_writes

abbrev pub has_token : User → Bool
has_token u = not (str_eq u.token "")

abbrev pub is_unsupported : Mode → Bool
is_unsupported unsupported = true
is_unsupported _ = false

unfoldable pub role_problem : User → Settings → String → String → Bool → Option Refusal
unfolding disabled_mode_allows role_level
role_problem u cfg required_role method open_when_disabled =
    if is_disabled cfg.auth_mode && not (has_token u)
    then (if disabled_mode_allows method open_when_disabled cfg
        then none
        else some authentication_for_change)
    else if is_unsupported cfg.auth_mode
    then some unsupported_mode
    else if not u.is_authenticated
    then some authentication_required
    else if ltb (role_level u.role) (role_level required_role)
    then some (insufficient required_role)
    else none

abbrev pub is_none {ℓ} : {A : Type ℓ} → Option A → Bool
is_none none = true
is_none (some a) = false

unfoldable pub may_administer : User → Settings → Bool
unfolding role_problem
may_administer u cfg = is_none (role_problem u cfg "admin" "POST" false)

unfoldable pub is_status_token : User → Bool
is_status_token u = has_token u && str_eq u.role "status"

-- `_viewer_problem`
unfoldable pub viewer_problem : User → Settings → Option Refusal
unfolding role_level
viewer_problem u cfg =
    if not (is_header cfg.auth_mode) || not cfg.auth_require_viewer
    then none
    else if not u.is_authenticated
    then some authentication_required
    else if ltb (role_level u.role) (role_level "viewer")
    then some (insufficient "viewer")
    else none

unfoldable pub status_access : User → Settings → String → Option Refusal
unfolding is_status_token role_level viewer_problem normalized lower
status_access u cfg tenant =
    if has_token u
    then (if is_status_token u
        then (if text_eq (lower (text u.tenant)) (normalized tenant)
            then none
            else some other_tenant)
        else if leb (role_level "viewer") (role_level u.role)
        then none
        else some (insufficient "viewer"))
    else viewer_problem u cfg

abbrev pub name_eq : Option String → Option String → Bool
name_eq none none = true
name_eq (some a) (some b) = str_eq a b
name_eq _ _ = false

-- Another site than this app's sent it, as far as the browser says.
abbrev pub is_from_elsewhere : (String → Option String) → Request → Bool
is_from_elsewhere hostname r =
    let origin = stripped (r.headers "origin") in
    let fetch_site = normalized (r.headers "sec-fetch-site") in
    if not (text_eq fetch_site [])
    then not (is_in fetch_site (text "same-origin" ∷ text "none" ∷ []))
    else if str_eq origin ""
    then false
    else str_eq origin "null"
      || not (name_eq (hostname origin) (hostname (joined "//" (r.headers "host"))))

unfoldable pub is_cross_site_write : (String → Option String) → Request → Settings → Bool
unfolding bearer_token stripped normalized
is_cross_site_write hostname r cfg =
    let origin = stripped (r.headers "origin") in
    if is_safe r.method || not (str_eq (bearer_token r) "")
    then false
    else if str_eq r.path "/mcp"
    then false
    else if not (str_eq origin "") && any (str_eq origin) cfg.cors_origins
    then false
    else is_from_elsewhere hostname r

abbrev pub public_paths : List String
public_paths = "/healthz" ∷ "/metrics" ∷ "/api/healthz" ∷ []

-- The status page, its data, and the app's code.
unfoldable pub is_status_path : String → Bool
unfolding starts_with
is_status_path path =
    any (λ p. starts_with (text path) (text p)) ("/status/" ∷ "/api/v1/status/" ∷ "/_nuxt/" ∷ [])

unfoldable pub check_request : (String → Option String) → Request → User → Settings → Option Refusal
unfolding is_cross_site_write is_status_path is_status_token viewer_problem
check_request hostname r u cfg =
    if is_cross_site_write hostname r cfg
    then some cross_site
    else if any (str_eq r.path) public_paths
    then none
    else if u.token_rejected
    then some token_invalid
    else if is_status_token u && not (is_status_path r.path)
    then some status_page_only
    else if is_status_path r.path
    then none
    else viewer_problem u cfg

-- The dependencies of a route that needs a role, in order: `check_request`, then `require_role`.
abbrev pub or_problem : Option Refusal → Option Refusal → Option Refusal
or_problem (some refusal) o = some refusal
or_problem none o = o

unfoldable pub route_problem :
    (String → Option String) → Request → User → Settings → String → Bool → Option Refusal
unfolding check_request role_problem
route_problem hostname r u cfg role open_when_disabled =
    or_problem (check_request hostname r u cfg)
      (role_problem u cfg role r.method open_when_disabled)
