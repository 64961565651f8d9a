-- ===== src/Lib.antt =====
-- The alert and availability core of Nautobot Maps and who may use it, modelled from the API's Python
-- code, with the theorems on it.
--
-- The application reads the devices of each site from Nautobot, decides which are down, gives each
-- site an alert level, stores the changes, sends messages about them, and reports how long each
-- site was down. A build of the alert board runs these parts in turn:
--
-- - api/app/services/alerts_service.py, `compute_alert_level`: the level of a site. Alerts/Device has
--   what a device contributes (`is_down`, `is_core_device`, `device_level`), Alerts/Severity the
--   decision itself (`_wired_level` is `worst_of` and `judge`; the access points are `down_aps` and
--   `join_aps`). Alerts/Worst is about the loop, Alerts/Rules and
--   Alerts/SiteRules about the level, Alerts/SiteNames about the devices that its reason names.
-- - the same file, from FLAP_WINDOW to `write_device_states`: up, down and flapping.
--   Alerts/DeviceState has the states and what is to be written, Alerts/StateTable the writes (with
--   those of api/app/repositories/board_repository.py), Alerts/Flapping what holds over many builds.
-- - the same file, `record_site_level_changes`: Notify/LevelChanges has the loop with the tables that
--   it writes. Notify/LevelStore is about what is stored, Notify/LogCount and
--   Notify/Consistency about the log.
-- - api/app/services/notify_service.py: Notify/Rules decides what is announced, Notify/Outbox queues and
--   sends. Notify/Messages is about the latest message of a site, Notify/Sending about a run on a channel.
-- - api/app/services/availability_service.py: Availability/Interval has the arithmetic of down times,
--   Availability/Reading the rows read, Availability/Critical the time at Critical, and
--   Availability/Report a site's down time and figures. Cover, Union, Subtract and Measure are about the
--   arithmetic, Maintenance, Downtime and Figures about the report, CriticalTime and CriticalRead about
--   the time at Critical.
-- - api/app/services/maintenance_service.py: Planned/Window has the windows, their states and what the
--   service does with them, Planned/Active is about those that are active, Planned/Ending about ending them.
--   Planned/Request is how a request becomes windows, Planned/Creation what they are then.
--   Planned/Listing has the lists of windows.
-- - api/app/services/alerts_service.py again, from `resolve_open_alert_instances_for_site` to
--   `upsert_alert_lifecycle_for_site`: the incidents of devices. Incidents/Store has the tables with what
--   api/app/repositories/board_repository.py does on them, Incidents/Since when a device went down and
--   came up, Incidents/Lifecycle a build's writes, Incidents/Acknowledge the acknowledgement. Resolve, Rows,
--   Sound, Opened, Began and Reported are about a build, Rounds and Settled about `acknowledge`.
-- - the same file, from `device_kinds` to `tenant_sees`: Alerts/Tenants has what a site's tenants are shown,
--   Alerts/TenantView and Alerts/TenantList are about it. And from `stack_groups` to `stack_of`:
--   Alerts/Stacks has the stacks of switches, each one device on the board, Alerts/StackDown when one is down.
-- - api/app/services/webhooks_service.py: other tools say that a device is down. Webhooks/Value reads
--   single values, Webhooks/Alertmanager and Webhooks/Request (the generic webhook) a request into events,
--   Webhooks/Table stores and indexes them. Parsed, Stored and Indexed are about these.
-- - api/app/services/token_service.py: Tokens/Table has the tokens with the statements of
--   api/app/repositories/token_repository.py, Tokens/Service the operations. Fields and Requested are about
--   `create`, Verified about `verify`, Purged about `purge`, Kept about any sequence of calls.
-- - api/app/services/auth_service.py: Access/User is who calls, by a token (`verify`) or by the headers of a
--   trusted proxy, Access/Rules what they may do and the two checks that a route makes
--   (api/app/utils/auth.py), Access/Refused who is refused and
--   Access/Proxied who passes behind a proxy.
--
-- Prelude passes on the names that all files use, with Python's dicts (Prelude/Keyed), lists and tests.
-- Level has the levels and their ranks, Text the texts, as lists of character codes.
--
-- How the code is modelled. A time is a natural number of microseconds, as precise as Python's. A text
-- that is compared regardless of case is a list of codes, and lower-casing is that of ASCII; ids
-- and names are strings. A table is a list of rows or a dict, a query is the filter that its `WHERE`
-- states, and a write is a function on the table. A reason or a message is kept as the facts that
-- its text is written from. Thresholds in percent are compared exactly, as the code does, and the
-- rounded mean of outages is that of exact arithmetic, half to even. `seconds` adds floats, which is
-- not modelled: in place of `downtime_seconds` a site's row holds the intervals that it adds up. Every
-- loop is a recursion on its list, so no fuel is needed. Reading an ISO-8601 text is a parameter, any function of
-- the text. Whether a delivery succeeds is a parameter, any function of the channel
-- and the messages.
--
-- A digest, the random characters of a token, the parsing of addresses and URLs and the networks of
-- trusted proxies are parameters too. A transaction is one function on the store: what a failed
-- one would have written is written not at all. An object's identity is a number that it carries.
--
-- Not modelled: the HTTP routes, the clients of Nautobot, LibreNMS and the wireless controllers, the
-- caches, the locks and the scheduler (input and output), the texts of messages and exports, and so
-- far the payload of the board, the periods of the report, the wireless
-- controllers' lists and the inventory.
pub mod Prelude
pub mod Level
pub mod Text
pub mod Alerts
pub mod Notify
pub mod Availability
pub mod Incidents
pub mod Planned
pub mod Tokens
pub mod Access
pub mod Webhooks
pub mod Tests
