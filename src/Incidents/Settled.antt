-- ===== src/Incidents/Settled.antt =====
-- What `acknowledge` leaves behind.
use nautobot_maps.Prelude.{
  ◌≡◌, refl, ap, ◌∙◌, sym, true, not, List, [], ◌∷◌, Option, none, some, String, str_eq, eq_iff,
  arith, any, filter, Dict, lookup, contains,
}
use nautobot_maps.Incidents.Store.{Incident, Store}
use nautobot_maps.Incidents.Acknowledge.{
  Acknowledgement, Answer, acknowledge_row, acknowledge_each, wanted_devices, rows_by_device,
  lock_open_alerts_of_site, if_complete, acknowledge,
}
use nautobot_maps.Incidents.Rounds.{
  dict_map, rounds, settled-dict_map, by_device-map, rounds-keeps, keys-dict_map,
  incidents-acknowledge_each, is_settled_row,
}

settled_row :
    (a : Acknowledgement) (d : String) (o : Option Incident) (s : Store) (changed : List String)
    → is_settled_row a.clear o ≡ true
    → acknowledge_row a d o (s, changed) ≡ (s, changed)
settled_row a d none s changed h = refl
settled_row a d (some r) s changed h = rw h refl

-- Where every row is settled, the loop does nothing.
settled_noop :
    (a : Acknowledgement) (by_device : Dict Incident) (wanted : List String)
    (p : Store × List String)
    → ((d : String)
        → any (str_eq d) wanted ≡ true
        → is_settled_row a.clear (lookup d by_device) ≡ true)
    → acknowledge_each a by_device wanted p ≡ p
unfolding acknowledge_each
settled_noop a by_device [] p h = refl
settled_noop a by_device (d ∷ wanted) (s, changed) h =
    ap (acknowledge_each a by_device wanted)
      (settled_row a d (lookup d by_device) s changed (h d (ground (arith, eq_iff d d))))
    ∙ settled_noop a by_device wanted (s, changed) (λ i w. h i (ground arith))

-- The open rows of the site, by device.
abbrev pub open_rows : String → Store → Dict Incident
open_rows site_id s = rows_by_device (lock_open_alerts_of_site site_id s)

open_rows-acknowledge_each :
    (site_id : String) (a : Acknowledgement) (by_device : Dict Incident) (wanted : List String)
    (s : Store)
    → open_rows site_id (acknowledge_each a by_device wanted (s, [])).0
      ≡ dict_map (rounds a by_device wanted) (open_rows site_id s)
open_rows-acknowledge_each site_id a by_device wanted s =
    by_device-map (rounds a by_device wanted) (λ r. (rounds-keeps a by_device wanted r).1)
      (λ r. (rounds-keeps a by_device wanted r).2) (λ r. (rounds-keeps a by_device wanted r).3)
      site_id s (acknowledge_each a by_device wanted (s, [])).0
      (incidents-acknowledge_each a by_device wanted (s, []))

wanted-dict_map :
    (f : Incident → Incident) (ids : List String) (d : Dict Incident)
    → wanted_devices ids (dict_map f d) ≡ wanted_devices ids d
wanted-dict_map f [] d = keys-dict_map f d
wanted-dict_map f (i ∷ ids) d = refl

-- The call, from the rows that were read.
abbrev pub acknowledge_on :
    Dict Incident → List String → List String → Acknowledgement → Store → Store × Answer
acknowledge_on by_device wanted missing a s =
    if_complete missing s (acknowledge_each a by_device wanted (s, []))

-- A call that finds every row settled, or a device missing, changes nothing.
abbrev ChangesNothing : Store → Store × Answer → Type 0
ChangesNothing s (after, answer) = (after ≡ s) × (answer.changed ≡ [])

settled-ChangesNothing :
    (by_device : Dict Incident) (wanted missing : List String) (a : Acknowledgement) (s : Store)
    → ((d : String)
        → any (str_eq d) wanted ≡ true
        → is_settled_row a.clear (lookup d by_device) ≡ true)
    → ChangesNothing s (acknowledge_on by_device wanted missing a s)
settled-ChangesNothing by_device wanted [] a s h = (
  ap (λ p. p.0) (settled_noop a by_device wanted (s, []) h),
  ap (λ p. p.1) (settled_noop a by_device wanted (s, []) h),
)
settled-ChangesNothing by_device wanted (d ∷ missing) a s h = (refl, refl)

pub missing_devices : List String → Dict Incident → List String
missing_devices wanted by_device = filter (λ d. not (contains d by_device)) wanted

pub acknowledge_lem :
    (site_id : String) (ids : List String) (a : Acknowledgement) (s : Store)
    → acknowledge site_id ids a s
      ≡ acknowledge_on
          (open_rows site_id s)
          (wanted_devices ids (open_rows site_id s))
          (missing_devices (wanted_devices ids (open_rows site_id s)) (open_rows site_id s))
          a
          s
unfolding acknowledge missing_devices
acknowledge_lem site_id ids a s = refl

wanted_once :
    (site_id : String) (ids : List String) (a : Acknowledgement) (s : Store)
    → wanted_devices ids (
        open_rows site_id
          (acknowledge_each a
            (open_rows site_id s)
            (wanted_devices ids (open_rows site_id s))
            (s, [])).0)
      ≡ wanted_devices ids (open_rows site_id s)
wanted_once site_id ids a s =
    ap (wanted_devices ids) (
      open_rows-acknowledge_each site_id a (open_rows site_id s)
        (wanted_devices ids (open_rows site_id s)) s)
    ∙ wanted-dict_map (rounds a (open_rows site_id s) (wanted_devices ids (open_rows site_id s)))
        ids (open_rows site_id s)

settled_once :
    (site_id : String) (ids : List String) (a : Acknowledgement) (s : Store) (d : String)
    → any (str_eq d) (wanted_devices ids (open_rows site_id s)) ≡ true
    → is_settled_row a.clear (
        lookup d (
          open_rows site_id
            (acknowledge_each a
              (open_rows site_id s)
              (wanted_devices ids (open_rows site_id s))
              (s, [])).0))
      ≡ true
settled_once site_id ids a s d w =
    ap (λ m. is_settled_row a.clear (lookup d m))
      (open_rows-acknowledge_each site_id a (open_rows site_id s)
        (wanted_devices ids (open_rows site_id s)) s)
    ∙ settled-dict_map a (open_rows site_id s) (wanted_devices ids (open_rows site_id s)) d w

again :
    (site_id : String) (ids : List String) (a b : Acknowledgement) (s : Store)
    (missing : List String)
    → a.clear ≡ b.clear
    → missing_devices (wanted_devices ids (open_rows site_id s)) (open_rows site_id s) ≡ missing
    → let once =
        (acknowledge_on
          (open_rows site_id s)
          (wanted_devices ids (open_rows site_id s))
          missing
          a
          s).0 in
      ChangesNothing once (acknowledge site_id ids b once)
again site_id ids a b s (d ∷ missing) e m = rw (acknowledge_lem site_id ids b s, m) (refl, refl)
again site_id ids a b s [] e m =
    let once =
      (acknowledge_each a (open_rows site_id s) (wanted_devices ids (open_rows site_id s))
        (s, [])).0 in
    rw (acknowledge_lem site_id ids b once) (
      settled-ChangesNothing (open_rows site_id once) (wanted_devices ids (open_rows site_id once))
        (missing_devices (wanted_devices ids (open_rows site_id once)) (open_rows site_id once)) b
        once
        (λ d w.
          ap (λ c. is_settled_row c (lookup d (open_rows site_id once))) (sym e)
          ∙ settled_once site_id ids a s d
              (ap (any (str_eq d)) (sym (wanted_once site_id ids a s)) ∙ w)))

-- Acknowledging the same devices once more, then or later and by whomever, changes nothing: the first
-- acknowledgement keeps its owner. And so with clearing.
pub acknowledge_again :
    (site_id : String) (ids : List String) (a b : Acknowledgement) (s : Store)
    → a.clear ≡ b.clear
    → let once = (acknowledge site_id ids a s).0 in
      ((acknowledge site_id ids b once).0 ≡ once)
      × ((acknowledge site_id ids b once).1.changed ≡ [])
acknowledge_again site_id ids a b s e = rw (acknowledge_lem site_id ids a s) (
    again site_id ids a b s
      (missing_devices (wanted_devices ids (open_rows site_id s)) (open_rows site_id s)) e refl)

settled_if_complete :
    (site_id : String) (ids : List String) (a : Acknowledgement) (s : Store) (d : String)
    (missing : List String)
    → any (str_eq d) (wanted_devices ids (open_rows site_id s)) ≡ true
    → (acknowledge_on
        (open_rows site_id s)
        (wanted_devices ids (open_rows site_id s))
        missing
        a
        s).1.missing
      ≡ []
    → is_settled_row a.clear (
        lookup d (
          open_rows site_id
            (acknowledge_on
              (open_rows site_id s)
              (wanted_devices ids (open_rows site_id s))
              missing
              a
              s).0))
      ≡ true
settled_if_complete site_id ids a s d [] w m = settled_once site_id ids a s d w
settled_if_complete site_id ids a s d (i ∷ missing) w m = cc

-- When the answer names no device as missing, the open incident of every device that was asked for is
-- acknowledged after the call, or with `clear` is not.
pub acknowledge_settles :
    (site_id : String) (ids : List String) (a : Acknowledgement) (s : Store) (d : String)
    → any (str_eq d) (wanted_devices ids (open_rows site_id s)) ≡ true
    → (acknowledge site_id ids a s).1.missing ≡ []
    → is_settled_row a.clear (lookup d (open_rows site_id (acknowledge site_id ids a s).0)) ≡ true
acknowledge_settles site_id ids a s d w = rw (acknowledge_lem site_id ids a s) (
    settled_if_complete site_id ids a s d
      (missing_devices (wanted_devices ids (open_rows site_id s)) (open_rows site_id s)) w)
