-- ===== src/Alerts/TenantView.antt =====
-- What a tenant is shown: the entries listed for it, and counts that fit together.
use nautobot_maps.Prelude.{
  ◌+◌, ◌≤◌, ◌≡◌, refl, ap, ◌∙◌, sym, Bool, true, false, not, ◌&&◌, ◌||◌, List, [], ◌∷◌, ◌++◌, map,
  arith, length, length-append, if◌then◌else◌, filter,
}
use nautobot_maps.Level.{maintenance, level_eq}
use nautobot_maps.Text.{Text, text_eq, is_empty, text_eq_sound}
use nautobot_maps.Alerts.Device.{Settings, is_down}
use nautobot_maps.Alerts.Tenants.{
  Seen, access_points, is_access_point, device_kinds, theirs, TenantSite, tenant_alert, Shown,
  append_to_text, list_devices,
}

-- The devices listed for a tenant.
abbrev pub listed_for {ℓ} : {A : Type ℓ} → Text → List (Text × List A) → List A
listed_for k [] = []
listed_for k ((j, l) ∷ d) = if text_eq k j then l else listed_for k d

same_text : (k j i : Text) → text_eq k j ≡ true → text_eq i j ≡ text_eq i k
same_text k j i h = ap (text_eq i) (sym (text_eq_sound k j h))

apart_texts : (i k j : Text) → text_eq k j ≡ false → text_eq i k ≡ true → text_eq i j ≡ false
apart_texts i k j h e = ap (λ s. text_eq s j) (text_eq_sound i k e) ∙ h

listed_for-append_to_text {ℓ} :
    {A : Type ℓ} (i k : Text) (v : A) (d : List (Text × List A))
    → listed_for i (append_to_text k v d)
      ≡ (if text_eq i k then listed_for i d ++ (v ∷ []) else listed_for i d)
listed_for-append_to_text i k v [] = ground arith
listed_for-append_to_text i k v ((j, l) ∷ d) =
    by_test (listed_for-append_to_text i k v d) (text_eq k j) refl
  where
    by_test :
        (listed_for i (append_to_text k v d)
          ≡ (if text_eq i k then listed_for i d ++ (v ∷ []) else listed_for i d))
        → (b : Bool) → text_eq k j ≡ b
        → listed_for i (if b then (j, l ++ (v ∷ [])) ∷ d else (j, l) ∷ append_to_text k v d) ≡ (
            if text_eq i k
            then listed_for i ((j, l) ∷ d) ++ (v ∷ [])
            else listed_for i ((j, l) ∷ d))
    by_test ih true h = ground (arith, same_text k j i h)
    by_test ih false h = ground (arith, ih, apart_texts i k j h)

-- The tenant is named, and the device is its own.
abbrev pub is_theirs : Text → Text → Bool
is_theirs tenant owner = not (is_empty owner) && text_eq tenant owner

append_assoc {ℓ} :
    {A : Type ℓ} (l : List A) (a : A) (m : List A) → (l ++ (a ∷ [])) ++ m ≡ l ++ (a ∷ m)
append_assoc [] a m = refl
append_assoc (b ∷ l) a m = ap (λ n. b ∷ n) (append_assoc l a m)

append-nil {ℓ} : {A : Type ℓ} (l : List A) → l ≡ l ++ []
append-nil [] = refl
append-nil (a ∷ l) = ap (λ n. a ∷ n) (append-nil l)

pub listed_for-list_devices :
    (owner : Seen → Text) (entry : Seen → Shown) (tenant : Text) (devices : List Seen)
    (listed : List (Text × List Shown))
    → listed_for tenant (list_devices owner entry devices listed)
      ≡ listed_for tenant listed ++ map entry (filter (λ d. is_theirs tenant (owner d)) devices)
unfolding list_devices
listed_for-list_devices owner entry tenant [] listed = append-nil (listed_for tenant listed)
listed_for-list_devices owner entry tenant (d ∷ devices) listed =
    by_owner (listed_for-list_devices owner entry tenant devices) (is_empty (owner d))
      (text_eq tenant (owner d)) refl
  where
    rest : List Shown
    rest = map entry (filter (λ e. is_theirs tenant (owner e)) devices)

    by_owner :
        ((l : List (Text × List Shown))
          → listed_for tenant (list_devices owner entry devices l) ≡ listed_for tenant l ++ rest)
        → (b c : Bool) → text_eq tenant (owner d) ≡ c
        → listed_for tenant (
            list_devices owner entry devices
              (if b then listed else append_to_text (owner d) (entry d) listed))
          ≡ listed_for tenant listed
            ++ map entry (
                if not b && c
                then d ∷ filter (λ e. is_theirs tenant (owner e)) devices
                else filter (λ e. is_theirs tenant (owner e)) devices)
    by_owner ih true c h = ih listed
    by_owner ih false true h =
        ih (append_to_text (owner d) (entry d) listed)
        ∙ ap (λ l. l ++ rest)
            (listed_for-append_to_text tenant (owner d) (entry d) listed ∙ rw h refl)
        ∙ append_assoc (listed_for tenant listed) (entry d) rest
    by_owner ih false false h =
        ih (append_to_text (owner d) (entry d) listed)
        ∙ ap (λ l. l ++ rest)
            (listed_for-append_to_text tenant (owner d) (entry d) listed ∙ rw h refl)

length-filter : (p : Seen → Bool) (l : List Seen) → length (filter p l) ≤ length l
length-filter p [] = ground arith
length-filter p (d ∷ l) = ground (arith, length-filter p l)

kinds-sum :
    (roles : List Text) (counted down : List Seen)
    → ((device_kinds roles counted down).access_point_count
          + (device_kinds roles counted down).network_device_count
        ≡ length counted)
      × ((device_kinds roles counted down).down_access_point_count
            + (device_kinds roles counted down).down_network_device_count
          ≡ length down)
unfolding device_kinds access_points
kinds-sum roles counted down = ground (
  arith,
  length-filter (λ d. d.device.wireless || is_access_point roles d) counted,
  length-filter (λ d. d.device.wireless || is_access_point roles d) down,
)

if_length : (b : Bool) (l : List Seen) → length (if b then [] else l) ≡ (if b then 0 else length l)
if_length true l = refl
if_length false l = refl

-- A tenant's access points and network devices are together its devices, and those down are together
-- its devices that are down, of those that count, or none when the tenant is shown maintenance.
pub tenant_alert-kinds :
    (cfg : Settings) (ap_roles : List Text) (site : TenantSite) (roles : List Text)
    → let a = tenant_alert cfg ap_roles site roles in
      (a.kinds.access_point_count + a.kinds.network_device_count ≡ a.device_count)
      × (a.kinds.down_access_point_count + a.kinds.down_network_device_count ≡ (
          if level_eq a.alert_level maintenance
          then 0
          else length (filter (λ (d : Seen). is_down d.device) (theirs roles site.devices))))
unfolding tenant_alert
tenant_alert-kinds cfg ap_roles site roles =
    let a = tenant_alert cfg ap_roles site roles in
    let active = theirs roles site.devices in
    let pending = theirs roles site.pending_devices in
    let planned = theirs roles site.maintenance_devices in
    let down = filter (λ (d : Seen). is_down d.device) active in
    let sums =
      kinds-sum ap_roles (active ++ (pending ++ planned))
        (if level_eq a.alert_level maintenance then [] else down) in
    (
      sums.0
          ∙ length-append active (pending ++ planned)
          ∙ ap (λ n. length active + n) (length-append pending planned)
          ∙ omega arith,
      sums.1 ∙ if_length (level_eq a.alert_level maintenance) down,
    )
