-- ===== src/Alerts/TenantList.antt =====
-- What `tenant_devices` lists for a tenant, beside a description of its own of who may see what.
use nautobot_maps.Prelude.{
  ◌≡◌, refl, ap, ◌∙◌, sym, Bool, true, false, not, ◌&&◌, List, [], ◌∷◌, ◌++◌, map, String, str_eq,
  arith, ◌==◌, if◌then◌else◌, filter, any, all,
}
use nautobot_maps.Text.{Text, text_eq, is_empty, is_in, lookup_text, text_eq_sound, text_eq_refl}
use nautobot_maps.Incidents.Since.{Stamp, missing, unreadable, stamp, down_since}
use nautobot_maps.Alerts.Device.{is_down}
use nautobot_maps.Alerts.Tenants.{
  Seen, board_device, folded, TenantSite, tenant_sees, role_fits, names_of, Shown, shown,
  in_maintenance, up, down, tenant_devices, or_since, or_name,
}
use nautobot_maps.Alerts.TenantView.{listed_for, is_theirs, listed_for-list_devices}

-- The roles configured for the tenant first in `scopes`, if any, have this one.
abbrev pub role_allowed : Text → List (Text × List Text) → Text → Bool
role_allowed tenant [] role = true
role_allowed tenant ((name, roles) ∷ scopes) role =
    if text_eq tenant name then is_in role roles else role_allowed tenant scopes role

-- A tenant may see a device that Nautobot gives it, at a site where it is a tenant, of a role that it
-- is configured for.
abbrev pub may_see : List (Text × List Text) → List Text → Text → Seen → Bool
may_see scopes tenants tenant d =
    not (is_empty tenant)
    && (text_eq tenant (folded d.tenant)
        && (any (λ name. not (is_empty name) && text_eq tenant (folded name)) tenants
            && role_allowed tenant scopes (folded d.device.role)))

-- A member of a stack goes by the stack's name, and what has no name is unknown.
abbrev pub name_shown : List String → Seen → String
name_shown stacks d =
    if any (str_eq d.vc_id) stacks && not (str_eq d.vc_name "")
    then d.vc_name
    else if str_eq d.device.name ""
    then "Unknown"
    else d.device.name

abbrev pub down_from : TenantSite → Seen → Stamp → Stamp
down_from site d missing = stamp (down_since (board_device d) site.checked_at)
down_from site d unreadable = unreadable
down_from site d (stamp at) = stamp at

-- The entries of the devices that count, of the pending ones and of those in maintenance.
abbrev pub counted_entry : TenantSite → List String → Seen → Shown
counted_entry site stacks d = record {
  name = name_shown stacks d;
  state =
      if site.in_site_window
      then in_maintenance
      else if is_down d.device
      then down (down_from site d d.first_seen_down_at)
      else up;
}

abbrev pub pending_entry : TenantSite → List String → Seen → Shown
pending_entry site stacks d = record {
  name = name_shown stacks d;
  state = if site.in_site_window then in_maintenance else up;
}

abbrev pub maintenance_entry : List String → Seen → Shown
maintenance_entry stacks d = record { name = name_shown stacks d; state = in_maintenance }

-- The device is one of these.
abbrev pub held : List Seen → Seen → Bool
held l d = any (λ (e : Seen). e.handle == d.handle) l

any-folded :
    (tenant : Text) (tenants : List Text)
    → is_in tenant (names_of tenants)
      ≡ any (λ name. not (is_empty name) && text_eq tenant (folded name)) tenants
unfolding names_of
any-folded tenant [] = refl
any-folded tenant (name ∷ tenants) = ground (arith, any-folded tenant tenants)

role_fits-allowed :
    (tenant role : Text) (scopes : List (Text × List Text))
    → role_fits role (lookup_text tenant scopes) ≡ role_allowed tenant scopes role
role_fits-allowed tenant role [] = refl
role_fits-allowed tenant role ((name, roles) ∷ scopes) =
    ground (arith, role_fits-allowed tenant role scopes)

text_eq-empty : (s t : Text) → is_empty t ≡ true → is_empty s ≡ false → text_eq s t ≡ false
text_eq-empty [] [] h k = cc
text_eq-empty [] (c ∷ t) h k = cc
text_eq-empty (c ∷ s) [] h k = refl
text_eq-empty (c ∷ s) (e ∷ t) h k = cc

tenant_sees-may_see :
    (scopes : List (Text × List Text)) (tenants : List Text) (tenant : Text) (d : Seen)
    → is_theirs tenant (tenant_sees d (names_of tenants) scopes) ≡ may_see scopes tenants tenant d
unfolding tenant_sees
tenant_sees-may_see scopes tenants tenant d = by_owner (text_eq tenant (folded d.tenant)) refl
  where
    owner : Text
    owner = folded d.tenant

    role : Text
    role = folded d.device.role

    by_owner :
        (b : Bool)
        → text_eq tenant (folded d.tenant) ≡ b
        → is_theirs tenant (
            if is_in (folded d.tenant) (names_of tenants)
              && role_fits (folded d.device.role) (lookup_text (folded d.tenant) scopes)
            then folded d.tenant
            else [])
          ≡ may_see scopes tenants tenant d
    by_owner true h =
        let e : owner ≡ tenant = sym (text_eq_sound tenant owner h) in
        rw e (
          ground (
            arith,
            text_eq_refl tenant,
            any-folded tenant tenants,
            role_fits-allowed tenant role scopes,
          ))
    by_owner false h = ground arith

listed_alike :
    (f g : Seen → Shown) (p q c : Seen → Bool)
    → ((d : Seen) → c d ≡ true → f d ≡ g d)
    → ((d : Seen) → p d ≡ q d)
    → (l : List Seen) → all c l ≡ true
    → map f (filter p l) ≡ map g (filter q l)
listed_alike f g p q c same test [] h = refl
listed_alike f g p q c same test (d ∷ l) h =
    ground (arith, test d, same d, listed_alike f g p q c same test l)

all-held :
    (c : Seen → Bool) (l : List Seen) → ((d : Seen) → held l d ≡ true → c d ≡ true) → all c l ≡ true
all-held c [] h = refl
all-held c (d ∷ l) h =
    let rest : all c l ≡ true = all-held c l (λ e k. h e (ground arith)) in ground (arith, h d)

all_but :
    (p q : Seen → Bool) (l : List Seen)
    → all p l ≡ true
    → any q l ≡ false
    → all (λ d. p d && not (q d)) l ≡ true
all_but p q [] h k = refl
all_but p q (d ∷ l) h k = ground (arith, all_but p q l)

none_held : (q : Seen → Bool) (l : List Seen) → any q l ≡ false → all (λ d. not (q d)) l ≡ true
none_held q [] h = refl
none_held q (d ∷ l) h = ground (arith, none_held q l)

listed-append :
    (f : Seen → Shown) (p : Seen → Bool) (l m : List Seen)
    → map f (filter p (l ++ m)) ≡ map f (filter p l) ++ map f (filter p m)
listed-append f p [] m = refl
listed-append f p (d ∷ l) m = ground (arith, listed-append f p l m)

or_unknown : (name : String) → or_name name "Unknown" ≡ (if str_eq name "" then "Unknown" else name)
or_unknown name = refl

name_by_test :
    (b : Bool) (vc_name name : String)
    → or_name (if b then vc_name else "") (or_name name "Unknown") ≡ (
        if b && not (str_eq vc_name "")
        then vc_name
        else if str_eq name ""
        then "Unknown"
        else name)
name_by_test true vc_name name = by_empty (str_eq vc_name "")
  where
    by_empty :
        (b : Bool)
        → (if◌then◌else◌ {A = String} b (or_name name "Unknown") vc_name)
          ≡ (if not b then vc_name else if str_eq name "" then "Unknown" else name)
    by_empty true = refl
    by_empty false = refl
name_by_test false vc_name name = refl

name_alike :
    (stacks : List String) (d : Seen)
    → or_name
        (if any (str_eq d.vc_id) stacks then d.vc_name else "")
        (or_name d.device.name "Unknown")
      ≡ name_shown stacks d
name_alike stacks d = name_by_test (any (str_eq d.vc_id) stacks) d.vc_name d.device.name

since_alike :
    (site : TenantSite) (d : Seen) (since : Stamp)
    → or_since since (down_since (board_device d) site.checked_at) ≡ down_from site d since
since_alike site d missing = refl
since_alike site d unreadable = refl
since_alike site d (stamp t) = refl

shown-counted :
    (site : TenantSite) (stacks : List String) (d : Seen)
    → (held site.devices d && not (held site.maintenance_devices d)) ≡ true
    → shown site stacks d ≡ counted_entry site stacks d
unfolding shown
shown-counted site stacks d h =
    ground (arith, name_alike stacks d, since_alike site d d.first_seen_down_at)

shown-pending :
    (site : TenantSite) (stacks : List String) (d : Seen)
    → (not (held site.devices d) && not (held site.maintenance_devices d)) ≡ true
    → shown site stacks d ≡ pending_entry site stacks d
unfolding shown
shown-pending site stacks d h = ground (arith, name_alike stacks d)

shown-maintenance :
    (site : TenantSite) (stacks : List String) (d : Seen)
    → held site.maintenance_devices d ≡ true
    → shown site stacks d ≡ maintenance_entry stacks d
unfolding shown
shown-maintenance site stacks d h = ground (arith, name_alike stacks d)

-- With the setting, a tenant's list has the site's devices that the tenant may see: the counted ones,
-- down since a time or up, then the pending ones, then those in maintenance, and all are in maintenance
-- during the site's own window. Without the setting it is empty. No device of the site is at once
-- counted, pending or in maintenance.
pub tenant_devices-own :
    (setting : Bool) (scopes : List (Text × List Text)) (tenants : List Text) (site : TenantSite)
    (stacks : List String) (tenant : Text)
    → any (held site.maintenance_devices) site.devices ≡ false
    → any (held site.maintenance_devices) site.pending_devices ≡ false
    → any (held site.devices) site.pending_devices ≡ false
    → let sees = filter (may_see scopes tenants tenant) in
      listed_for tenant (tenant_devices setting scopes tenants site stacks) ≡ (
        if setting
        then map (counted_entry site stacks) (sees site.devices)
          ++ (map (pending_entry site stacks) (sees site.pending_devices)
              ++ map (maintenance_entry stacks) (sees site.maintenance_devices))
        else [])
unfolding tenant_devices
tenant_devices-own false scopes tenants site stacks tenant h k e = refl
tenant_devices-own true scopes tenants site stacks tenant h k e =
    let p : Seen → Bool = λ d. is_theirs tenant (tenant_sees d (names_of tenants) scopes) in
    let test = tenant_sees-may_see scopes tenants tenant in
    listed_for-list_devices (λ d. tenant_sees d (names_of tenants) scopes) (shown site stacks)
      tenant (site.devices ++ (site.pending_devices ++ site.maintenance_devices)) []
    ∙ listed-append (shown site stacks) p site.devices
        (site.pending_devices ++ site.maintenance_devices)
    ∙ ap (λ l. map (shown site stacks) (filter p site.devices) ++ l)
        (listed-append (shown site stacks) p site.pending_devices site.maintenance_devices)
    ∙ rw
        (
          listed_alike (shown site stacks) (counted_entry site stacks) p
              (may_see scopes tenants tenant)
              (λ d. held site.devices d && not (held site.maintenance_devices d))
              (shown-counted site stacks) test site.devices
              (all_but (held site.devices) (held site.maintenance_devices) site.devices
                (all-held (held site.devices) site.devices (λ d f. f)) h),
          listed_alike (shown site stacks) (pending_entry site stacks) p
              (may_see scopes tenants tenant)
              (λ d. not (held site.devices d) && not (held site.maintenance_devices d))
              (shown-pending site stacks) test site.pending_devices
              (all_but (λ d. not (held site.devices d)) (held site.maintenance_devices)
                site.pending_devices (none_held (held site.devices) site.pending_devices e) k),
          listed_alike (shown site stacks) (maintenance_entry stacks) p
              (may_see scopes tenants tenant) (held site.maintenance_devices)
              (shown-maintenance site stacks) test site.maintenance_devices
              (all-held (held site.maintenance_devices) site.maintenance_devices (λ d f. f)),
        )
        refl
