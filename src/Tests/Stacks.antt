-- ===== src/Tests/Stacks.antt =====
-- The theorem on stacks at one of two members, the second of them the master and up.
use nautobot_maps.Prelude.{◌≡◌, refl, true, false, [], ◌∷◌, any, none, some, sort_by}
use nautobot_maps.Text.{text}
use nautobot_maps.Alerts.Stacks.{Member, leads, group_of, is_down_member}
use nautobot_maps.Alerts.StackDown.{is_down_group, group_of-is_down_group}

abbrev first_member : Member
first_member = record {
  handle = 1;
  id = "d1";
  name = "sw-1";
  vc_id = "v1";
  vc_name = "stack";
  vc_master = false;
  vc_position = some 1;
  status = some (text "Offline");
  down_source = some "nautobot";
  webhook_since = none;
  webhook_summary = none;
  last_updated = none;
}

abbrev master : Member
master = record first_member {
  handle = 2;
  name = "sw-2";
  vc_master = true;
  vc_position = none;
  status = some (text "Active");
}

group_of-is_down_group_example :
    is_down_group (group_of (sort_by leads (first_member ∷ master ∷ [])))
    ≡ any is_down_member (first_member ∷ master ∷ [])
group_of-is_down_group_example = group_of-is_down_group (first_member ∷ master ∷ []) refl
