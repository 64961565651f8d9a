-- ===== src/Alerts/Stacks.antt =====
-- Stacks on the board, each one device: `stack_groups`, `merge_stacks`, `board_stacks` and `stack_of` of
-- alerts_service.py.
use nautobot_maps.Prelude.{
  ℕ, Bool, true, false, not, ◌&&◌, ◌||◌, List, [], ◌∷◌, map, Option, none, some, String, str_eq,
  leb, ltb, ◌==◌, length, if◌then◌else◌, filter, any, sort_by, Dict, lookup, append_to,
}
use nautobot_maps.Text.{Text, lower, strip, is_in}
use nautobot_maps.Alerts.Device.{down_statuses, status_is_excluded}

-- A device, as far as its stack needs it. `handle` stands for the object's identity; the fields that a
-- down member passes on are none when the key is missing.
pub record Member : Type 0 where
  pub handle : ℕ
  pub id : String
  pub name : String
  pub vc_id : String
  pub vc_name : String
  pub vc_master : Bool
  pub vc_position : Option ℕ
  pub status : Option Text
  pub down_source : Option String
  pub webhook_since : Option String
  pub webhook_summary : Option String
  pub last_updated : Option String

abbrev pub status_of : Option Text → Text
status_of none = []
status_of (some s) = s

unfoldable pub is_down_member : Member → Bool
unfolding lower strip
is_down_member d = is_in (strip (lower (status_of d.status))) down_statuses

abbrev pub has_no_place : Option ℕ → Bool
has_no_place none = true
has_no_place (some n) = false

abbrev pub place_of : Option ℕ → ℕ
place_of none = 0
place_of (some n) = n

-- The pair (false, true) or a pair of the same.
abbrev pub is_less : Bool → Bool → Bool
is_less a b = not a && b

abbrev pub is_same : Bool → Bool → Bool
is_same true b = b
is_same false b = not b

-- "Not after" by the sort's key: the master first, then by place, those without one last.
unfoldable pub leads : Member → Member → Bool
leads a b =
    is_less b.vc_master a.vc_master
    || (is_same a.vc_master b.vc_master
        && (is_less (has_no_place a.vc_position) (has_no_place b.vc_position)
            || (is_same (has_no_place a.vc_position) (has_no_place b.vc_position)
                && leb (place_of a.vc_position) (place_of b.vc_position))))

abbrev pub first_down : List Member → Option Member
first_down [] = none
first_down (d ∷ devices) =
    let rest = first_down devices in if is_down_member d then some d else rest

pub record Group : Type 0 where
  pub lead : Member
  pub others : List Member
  pub down : Option Member

abbrev pub group_of : List Member → Option Group
group_of [] = none
group_of (d ∷ ordered) =
    some (record { lead = d; others = ordered; down = first_down (d ∷ ordered) })

abbrev pub with_group : Option Group → List Group → List Group
with_group none groups = groups
with_group (some g) groups = g ∷ groups

unfoldable pub chassis_of : List Member → Dict (List Member) → Dict (List Member)
chassis_of [] chassis = chassis
chassis_of (d ∷ devices) chassis =
    chassis_of devices (if str_eq d.vc_id "" then chassis else append_to d.vc_id d chassis)

unfoldable pub groups_of_chassis : Dict (List Member) → List Group
unfolding leads is_down_member
groups_of_chassis [] = []
groups_of_chassis ((k, members) ∷ chassis) =
    let rest = groups_of_chassis chassis in
    if ltb (length members) 2 then rest else with_group (group_of (sort_by leads members)) rest

unfoldable pub stack_groups : List Member → List Group
unfolding chassis_of groups_of_chassis
stack_groups devices = groups_of_chassis (chassis_of devices [])

abbrev pub or_own {ℓ} : {A : Type ℓ} → Option A → Option A → Option A
or_own (some a) o = some a
or_own none o = o

-- `{**lead, ...}`, with the fields of STACK_DOWN_FIELDS that the member has.
abbrev pub passed_on : Member → Member → Member
passed_on down lead = record lead {
  status = or_own down.status lead.status;
  down_source = or_own down.down_source lead.down_source;
  webhook_since = or_own down.webhook_since lead.webhook_since;
  webhook_summary = or_own down.webhook_summary lead.webhook_summary;
  last_updated = or_own down.last_updated lead.last_updated;
}

-- The device that stands for the stack.
abbrev pub merged_lead : Member → Option Member → Member
merged_lead lead none = lead
merged_lead lead (some down) = if down.handle == lead.handle then lead else passed_on down lead

abbrev pub is_dropped : List Group → Member → Bool
is_dropped groups d =
    any (λ (g : Group). any (λ (e : Member). e.handle == d.handle) g.others) groups

abbrev pub replaced : List Group → Member → Member
replaced [] d = d
replaced (g ∷ groups) d =
    let rest = replaced groups d in if g.lead.handle == d.handle then merged_lead d g.down else rest

unfoldable pub merge_stacks : List Member → List Member
unfolding stack_groups
merge_stacks devices =
    let groups = stack_groups devices in
    map (replaced groups) (filter (λ d. not (is_dropped groups d)) devices)

pub record BoardStack : Type 0 where
  pub members : List Member
  pub names : List String

unfoldable pub board_stacks : List Text → List String → Dict (List Member) → Dict BoardStack
unfolding status_is_excluded
board_stacks excluded muted [] = []
board_stacks excluded muted ((vc_id, all_members) ∷ stacks) =
    let members =
      filter
        (λ (m : Member).
          not (status_is_excluded (status_of m.status) excluded) && not (any (str_eq m.id) muted))
        all_members in
    let rest = board_stacks excluded muted stacks in
    if leb 2 (length members)
    then (vc_id, record { members = members; names = map (λ (m : Member). m.name) members }) ∷ rest
    else rest

-- What the board says of a down stack. `members` is empty when it is not down as a whole.
pub record StackShown : Type 0 where
  pub name : String
  pub position : Option ℕ
  pub size : ℕ
  pub master : Bool
  pub whole : Bool
  pub members : List String

abbrev pub is_flapping_source : Option String → Bool
is_flapping_source none = false
is_flapping_source (some source) = str_eq source "flapping"

abbrev pub shown_stack : Member → Bool → Option BoardStack → Option StackShown
shown_stack d counted none = none
shown_stack d counted (some stack) =
    let whole = counted && not (is_flapping_source d.down_source) in
    some (record {
      name = d.vc_name;
      position = d.vc_position;
      size = length stack.members;
      master = d.vc_master;
      whole = whole;
      members = if whole then stack.names else [];
    })

unfoldable pub stack_of : Member → Dict BoardStack → Bool → Option StackShown
stack_of d stacks counted = shown_stack d counted (lookup d.vc_id stacks)
