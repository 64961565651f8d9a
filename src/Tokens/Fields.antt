-- ===== src/Tokens/Fields.antt =====
-- Which fields of a request for a token are accepted.
use nautobot_maps.Prelude.{
  ◌≡◌, refl, Bool, true, false, ◌&&◌, ◌||◌, List, Option, none, some, String, str_eq, leb, arith,
  eq_iff,
}
use nautobot_maps.Text.{text, stripped, count_characters}
use nautobot_maps.Availability.Interval.{Time}
use nautobot_maps.Planned.Request.{Field, absent, string, items, whole, other, has_text}
use nautobot_maps.Tokens.Table.{Role, viewer, operator, admin, status, nautobot_tenant_name, is_set}
use nautobot_maps.Tokens.Service.{
  Checked, checked, refused, if_checked, TokenBody, matches_name, read_name, read_role,
  known_tenant, status_tenant, no_tenant, read_tenant, read_expiry, max_name_length,
  max_tenant_length, max_expiry_days,
}

abbrev pub is_accepted {ℓ} : {A : Type ℓ} → Checked A → Bool
is_accepted (refused e) = false
is_accepted (checked a) = true

-- The documented rules for the fields of a request.
abbrev pub name_allowed : Field → Bool
name_allowed (string s) =
    has_text s
    && leb (count_characters (stripped s)) max_name_length
    && matches_name (text (stripped s))
name_allowed _ = false

abbrev pub is_role : String → Field → Bool
is_role role (string s) = str_eq s role
is_role role _ = false

abbrev pub is_absent : Field → Bool
is_absent absent = true
is_absent _ = false

abbrev pub tenant_allowed : List String → Field → Bool
tenant_allowed names (string s) =
    has_text s
    && leb (count_characters (stripped s)) max_tenant_length
    && is_set (nautobot_tenant_name names (stripped s))
tenant_allowed names _ = false

abbrev pub days_allowed : Field → Bool
days_allowed absent = true
days_allowed (whole days) = leb 1 days && leb days max_expiry_days
days_allowed _ = false

abbrev pub body_allowed : List String → TokenBody → Bool
body_allowed names b =
    name_allowed b.name
    && (((is_role "status" b.role && tenant_allowed names b.tenant)
          || ((is_role "viewer" b.role || is_role "operator" b.role || is_role "admin" b.role)
              && is_absent b.tenant))
        && days_allowed b.expires_in_days)

-- The name that a request gives.
abbrev pub name_of : Field → String
name_of (string s) = stripped s
name_of _ = ""

pub read_name-is_accepted : (f : Field) → is_accepted (read_name f) ≡ name_allowed f
unfolding read_name
read_name-is_accepted (string s) = ground arith
read_name-is_accepted absent = refl
read_name-is_accepted (items l) = refl
read_name-is_accepted (whole n) = refl
read_name-is_accepted (other b) = refl

pub read_expiry-is_accepted :
    (now : Time) (f : Field) → is_accepted (read_expiry now f) ≡ days_allowed f
unfolding read_expiry
read_expiry-is_accepted now (string s) = refl
read_expiry-is_accepted now absent = refl
read_expiry-is_accepted now (items l) = refl
read_expiry-is_accepted now (whole n) = ground arith
read_expiry-is_accepted now (other b) = refl

known_tenant-is_accepted : (o : Option String) → is_accepted (known_tenant o) ≡ is_set o
known_tenant-is_accepted none = refl
known_tenant-is_accepted (some n) = refl

status_tenant-is_accepted :
    (names : List String) (f : Field) → is_accepted (status_tenant names f) ≡ tenant_allowed names f
status_tenant-is_accepted names (string s) =
    ground (arith, known_tenant-is_accepted (nautobot_tenant_name names (stripped s)))
status_tenant-is_accepted names absent = refl
status_tenant-is_accepted names (items l) = refl
status_tenant-is_accepted names (whole n) = refl
status_tenant-is_accepted names (other b) = refl

no_tenant-is_accepted : (f : Field) → is_accepted (no_tenant f) ≡ is_absent f
no_tenant-is_accepted (string s) = refl
no_tenant-is_accepted absent = refl
no_tenant-is_accepted (items l) = refl
no_tenant-is_accepted (whole n) = refl
no_tenant-is_accepted (other b) = refl

pub accepted-if_checked {ℓ} :
    {A B : Type ℓ} (b : Bool) (c : Checked A) (f : A → Checked B)
    → ((a : A) → is_accepted (f a) ≡ b)
    → is_accepted (if_checked c f) ≡ (is_accepted c && b)
accepted-if_checked b (refused e) f h = refl
accepted-if_checked b (checked a) f h = h a

-- The tenant as the role wants it.
abbrev tenant_fits : List String → Field → Role → Bool
tenant_fits names tenant status = tenant_allowed names tenant
tenant_fits names tenant _ = is_absent tenant

pub read_tenant-is_accepted :
    (names : List String) (role : Role) (f : Field)
    → is_accepted (read_tenant names role f) ≡ tenant_fits names f role
unfolding read_tenant
read_tenant-is_accepted names status f = status_tenant-is_accepted names f
read_tenant-is_accepted names viewer f = no_tenant-is_accepted f
read_tenant-is_accepted names operator f = no_tenant-is_accepted f
read_tenant-is_accepted names admin f = no_tenant-is_accepted f

one_role :
    (s : String)
    → str_eq s "status" ≡ true
    → (str_eq s "viewer" || str_eq s "operator" || str_eq s "admin") ≡ false
one_role s h = rw ((eq_iff s "status").0 h) refl

pub accepted-read_role :
    {B : Type 0} (names : List String) (tenant f : Field) (d : Bool) (g : Role → Checked B)
    → ((role : Role) → is_accepted (g role) ≡ (tenant_fits names tenant role && d))
    → is_accepted (if_checked (read_role f) g) ≡ (
        ((is_role "status" f && tenant_allowed names tenant)
          || ((is_role "viewer" f || is_role "operator" f || is_role "admin" f)
              && is_absent tenant))
        && d)
unfolding read_role
accepted-read_role names tenant (string s) d g h =
    ground (arith, one_role s, h viewer, h operator, h admin, h status)
accepted-read_role names tenant absent d g h = refl
accepted-read_role names tenant (items l) d g h = refl
accepted-read_role names tenant (whole n) d g h = refl
accepted-read_role names tenant (other b) d g h = refl
