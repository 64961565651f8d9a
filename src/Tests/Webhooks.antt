-- ===== src/Tests/Webhooks.antt =====
-- The theorems on webhooks at two alerts on one host.
use nautobot_maps.Prelude.{ℕ, ◌≡◌, true, ◌&&◌, [], ◌∷◌, any, filter, Option, none, some, List, leb}
use nautobot_maps.Text.{Text, text, lookup_text}
use nautobot_maps.Webhooks.Request.{Item, item, parse_generic}
use nautobot_maps.Webhooks.Alertmanager.{AlertItem, AlertSettings}
use nautobot_maps.Webhooks.Value.{Value, Event}
use nautobot_maps.Webhooks.Table.{Row, Store, is_current, store, read_index}
use nautobot_maps.Webhooks.Stored.{row_of, last_row, store-row_of}
use nautobot_maps.Webhooks.Indexed.{is_by_then, is_of_host, read_index-is_by_then}
use nautobot_maps.Webhooks.Parsed.{all_storable, parse_generic-is_storable}

abbrev firing : Event
firing = record {
  source = text "alertmanager";
  key = text "k1";
  device = text "sw1.example.com";
  is_down = true;
  summary = text "down";
  started_at = some 3_000_000;
}

abbrev earlier_row : Row
earlier_row = record {
  source = text "webhook";
  alert_key = text "sw1";
  device_key = text "sw1";
  summary = text "unreachable";
  started_at = 1_000_000;
  updated_at = 4_000_000;
}

abbrev one_row : Store
one_row = record { rows = earlier_row ∷ []; received = some 4_000_000; rebuilt = some 4_000_000 }

abbrev no_address : Text → Option Text
no_address s = none

abbrev no_time : Text → Option (ℕ × ℕ)
no_time s = none

abbrev digest : List (Text × Value) → Text
digest labels = text "d"

store-row_of_example :
    row_of (text "alertmanager") (text "k1") (store 9_000_000 5_000_000 (firing ∷ []) one_row).rows
    ≡ last_row 5_000_000 (text "alertmanager") (text "k1") (firing ∷ []) (
        row_of
          (text "alertmanager")
          (text "k1")
          (filter (is_current 9_000_000 5_000_000) one_row.rows))
store-row_of_example =
    store-row_of 9_000_000 5_000_000 (text "alertmanager") (text "k1") (firing ∷ []) one_row

read_index-is_by_then_example :
    is_by_then 2_000_000
      (lookup_text (text "sw1") (read_index no_address 9_000_000 5_000_000 one_row).by_host)
    ≡ any
        (λ r.
          is_current 9_000_000 5_000_000 r
          && (is_of_host no_address (text "sw1") r && leb r.started_at 2_000_000))
        one_row.rows
read_index-is_by_then_example =
    read_index-is_by_then no_address 9_000_000 5_000_000 2_000_000 (text "sw1") one_row

abbrev down_item : Item
down_item =
    item (Value.string (text "sw1:9100")) (Value.string (text "down")) Value.missing
      (Value.number (text "7")) Value.missing Value.null

parse_generic-is_storable_example :
    all_storable (parse_generic no_address no_time (down_item ∷ [])) ≡ true
parse_generic-is_storable_example = parse_generic-is_storable no_address no_time (down_item ∷ [])

abbrev unlabelled : AlertItem
unlabelled = record {
  labels = none;
  status = Value.string (text "firing");
  fingerprint = Value.missing;
  annotations = [];
  starts_at = Value.missing;
}

abbrev any_name : AlertSettings
any_name = record { alertnames = []; device_labels = text "instance" ∷ [] }
