-- ===== src/Tests/Notify.antt =====
-- The notification theorems at a small outbox and a small build.
use nautobot_maps.Prelude.{
  ◌≡◌, refl, true, false, ◌&&◌, ◌||◌, ltb, leb, List, [], ◌∷◌, none, some, arith, any, eq_iff,
}
use nautobot_maps.Level.{low, medium, critical, ok, rank}
use nautobot_maps.Text.{text}
use nautobot_maps.Notify.Rules.{Settings, alarm, minimum, tenant_matches}
use nautobot_maps.Notify.Outbox.{
  Row, Outbox, pending, is_due, latest_kind, enqueue_change, send_channel,
}
use nautobot_maps.Notify.Messages.{is_alarm_open, agrees, enqueue_change-alarm_open}
use nautobot_maps.Notify.Sending.{AllValid, send_channel-none_due}
use nautobot_maps.Notify.LevelChanges.{Tables, Build, record_site_level_changes}
use nautobot_maps.Notify.LevelStore.{stored_level}
use nautobot_maps.Notify.Consistency.{
  IsConsistent, last_logged, record_site_level_changes-IsConsistent,
  record_site_level_changes-levels,
}

abbrev settings : Settings
settings = record {
  min_level = medium;
  min_level_by_tier = (text "gold", low) ∷ [];
  tenants = [];
  channels = text "mail" ∷ [];
  summary_threshold = 5;
}

abbrev row : Row
row = record {
  id = 1;
  channel = text "mail";
  kind = alarm;
  site_id = "s1";
  from_level = ok;
  to_level = critical;
  status = pending;
  attempts = 9;
  created_at = 100;
  next_attempt_at = 100;
}

abbrev rows : List Row
rows = row ∷ record row { id = 2; attempts = 0; next_attempt_at = 300 } ∷ []

rows-AllValid : AllValid rows
rows-AllValid = ground arith

abbrev box : Outbox
box = record { rows = rows; next_id = 3 }

any_tenant : tenant_matches settings [] ≡ true
unfolding tenant_matches
any_tenant = refl

-- The site was last at critical with an alarm out, so the two agree.
alarm_is_open :
    (ltb (rank ok) (rank critical) && ltb (rank ok) (minimum settings (text "silver"))
      || agrees (is_alarm_open "s1" box) (leb (minimum settings (text "silver")) (rank critical)))
    ≡ true
unfolding minimum latest_kind
alarm_is_open = refl

enqueue_change-alarm_open_example :
    let after = (enqueue_change settings box "s1" critical ok (text "silver") [] 200 false).0 in
    (is_alarm_open "s1" after ≡ leb (minimum settings (text "silver")) (rank ok))
    × (latest_kind "s2" none after.rows ≡ latest_kind "s2" none box.rows)
enqueue_change-alarm_open_example =
    enqueue_change-alarm_open settings box "s1" "s2" critical ok (text "silver") [] 200
      (omega arith) any_tenant refl refl refl alarm_is_open

send_channel-none_due_example :
    any (is_due (text "mail") 200) (send_channel settings (λ c b. false) 200 (text "mail") rows).0
    ≡ false
send_channel-none_due_example = send_channel-none_due settings (λ c b. false) 200 (text "mail") rows

abbrev tables : Tables
tables = record {
  levels = ("s1", record { level = ok; criticality_key = none; down_key = none }) ∷ [];
  log = record { site_id = "s1"; from_level = low; to_level = ok; changed_at = 50 } ∷ [];
  box = record { rows = rows; next_id = 3 };
}

abbrev build : Build
build = record {
  levels = ("s1", critical) ∷ ("s2", ok) ∷ [];
  sites = [];
  quiet_sites = [];
  level_keys = [];
}

tables-IsConsistent : IsConsistent tables
unfolding last_logged
tables-IsConsistent = record { at_site = λ j l e. ground (arith, eq_iff j "s1", eq_iff "s1" j) }

record_site_level_changes-IsConsistent_example :
    IsConsistent (record_site_level_changes settings build 200 tables).0
record_site_level_changes-IsConsistent_example =
    record_site_level_changes-IsConsistent settings build 200 tables refl tables-IsConsistent

record_site_level_changes-levels_example :
    stored_level "s1" (record_site_level_changes settings build 200 tables).0 ≡ some critical
record_site_level_changes-levels_example =
    record_site_level_changes-levels settings build 200 "s1" tables refl
