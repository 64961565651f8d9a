-- ===== src/Incidents/Rounds.antt =====
-- The loop of `acknowledge`, as a change of each row.
use mathlib.Core.List.{foldl}
use nautobot_maps.Prelude.{
  ◌≡◌, refl, ap, ◌∙◌, sym, Bool, true, false, ◌&&◌, ◌||◌, List, [], ◌∷◌, ◌++◌, map, Option, none,
  some, String, str_eq, eq_iff, ◌==◌, arith, if◌then◌else◌, any, filter, Dict, lookup, insert,
}
use nautobot_maps.Incidents.Store.{Incident, Store, acknowledged_row, cleared_row}
use nautobot_maps.Incidents.Acknowledge.{
  Acknowledgement, is_settled, write_acknowledgement, acknowledge_row, acknowledge_each,
  rows_by_device, lock_open_alerts_of_site, max_ack_note_length,
}
use nautobot_maps.Text.{first_characters, stripped}

by_or {ℓ} : {X : Type ℓ} (b c : Bool) → (b || c) ≡ true → (b ≡ true → X) → (c ≡ true → X) → X
by_or true c h f g = f refl
by_or false c h f g = g h

-- A dict with its values changed.
abbrev pub dict_map : (Incident → Incident) → Dict Incident → Dict Incident
dict_map f [] = []
dict_map f ((k, r) ∷ d) = (k, f r) ∷ dict_map f d

abbrev option_map : (Incident → Incident) → Option Incident → Option Incident
option_map f none = none
option_map f (some r) = some (f r)

pub lookup-dict_map :
    (f : Incident → Incident) (k : String) (d : Dict Incident)
    → lookup k (dict_map f d) ≡ option_map f (lookup k d)
lookup-dict_map f k [] = refl
lookup-dict_map f k ((j, r) ∷ d) = ground (arith, lookup-dict_map f k d)

insert-dict_map :
    (f : Incident → Incident) (k : String) (r : Incident) (d : Dict Incident)
    → insert k (f r) (dict_map f d) ≡ dict_map f (insert k r d)
insert-dict_map f k r [] = refl
insert-dict_map f k r ((j, t) ∷ d) = ground (arith, insert-dict_map f k r d)

pub keys-dict_map :
    (f : Incident → Incident) (d : Dict Incident) → map (λ e. e.0) (dict_map f d) ≡ map (λ e. e.0) d
keys-dict_map f [] = refl
keys-dict_map f ((k, r) ∷ d) = ap (λ l. k ∷ l) (keys-dict_map f d)

-- A change of rows that keeps the site, the device and whether the row is open.
module _ (f : Incident → Incident) (site_same : (r : Incident) → (f r).site_id ≡ r.site_id)
    (device_same : (r : Incident) → (f r).device_id ≡ r.device_id)
    (open_same : (r : Incident) → (f r).is_open ≡ r.is_open) where
  rows_by_device-map :
      (l : List Incident) (d : Dict Incident)
      → foldl (λ d r. insert r.device_id r d) (dict_map f d) (map f l)
        ≡ dict_map f (foldl (λ d r. insert r.device_id r d) d l)
  rows_by_device-map [] d = refl
  rows_by_device-map (r ∷ l) d =
      ap (λ e. foldl (λ d r. insert r.device_id r d) e (map f l))
        (ap (λ i. insert i (f r) (dict_map f d)) (device_same r)
          ∙ insert-dict_map f r.device_id r d)
      ∙ rows_by_device-map l (insert r.device_id r d)

  locked-map :
      (site_id : String) (l : List Incident)
      → filter (λ r. str_eq r.site_id site_id && r.is_open) (map f l)
        ≡ map f (filter (λ r. str_eq r.site_id site_id && r.is_open) l)
  locked-map site_id [] = refl
  locked-map site_id (r ∷ l) = ground (arith, site_same r, open_same r, locked-map site_id l)

  pub by_device-map :
      (site_id : String) (s t : Store)
      → t.incidents ≡ map f s.incidents
      → rows_by_device (lock_open_alerts_of_site site_id t)
        ≡ dict_map f (rows_by_device (lock_open_alerts_of_site site_id s))
  unfolding rows_by_device lock_open_alerts_of_site
  by_device-map site_id s t e =
      ap
        (λ l.
          foldl (λ d r. insert r.device_id r d) []
            (filter (λ r. str_eq r.site_id site_id && r.is_open) l))
        e
      ∙ ap (foldl (λ d r. insert r.device_id r d) []) (locked-map site_id s.incidents)
      ∙ rows_by_device-map (filter (λ r. str_eq r.site_id site_id && r.is_open) s.incidents) []

-- One call: who acknowledges, and the rows that were read.
module _ (a : Acknowledgement) (by_device : Dict Incident) where
  written : Incident → Incident
  written t =
      if a.clear
      then cleared_row t
      else acknowledged_row a.at a.by (first_characters max_ack_note_length (stripped a.note)) t

  -- What the round for a device does to a row, by the row that was read for the device.
  round : Option Incident → Incident → Incident
  round none t = t
  round (some r) t = if is_settled a.clear r then t else if t.id == r.id then written t else t

  pub rounds : List String → Incident → Incident
  rounds [] t = t
  rounds (d ∷ wanted) t = rounds wanted (round (lookup d by_device) t)

  round-keeps :
      (o : Option Incident) (t : Incident)
      → ((round o t).id ≡ t.id)
        × ((round o t).site_id ≡ t.site_id)
        × ((round o t).device_id ≡ t.device_id)
        × ((round o t).is_open ≡ t.is_open)
        × (is_settled a.clear t ≡ true → is_settled a.clear (round o t) ≡ true)
  unfolding round written
  round-keeps none t = ground arith
  round-keeps (some r) t = ground arith

  pub rounds-keeps :
      (wanted : List String) (t : Incident)
      → ((rounds wanted t).id ≡ t.id)
        × ((rounds wanted t).site_id ≡ t.site_id)
        × ((rounds wanted t).device_id ≡ t.device_id)
        × ((rounds wanted t).is_open ≡ t.is_open)
        × (is_settled a.clear t ≡ true → is_settled a.clear (rounds wanted t) ≡ true)
  unfolding rounds
  rounds-keeps [] t = (refl, refl, refl, refl, λ h. h)
  rounds-keeps (d ∷ wanted) t =
      let k = round-keeps (lookup d by_device) t in
      let ks = rounds-keeps wanted (round (lookup d by_device) t) in
      (ks.0 ∙ k.0, ks.1 ∙ k.1, ks.2 ∙ k.2, ks.3 ∙ k.3, λ h. ks.4 (k.4 h))

  map_same :
      (l : List Incident) (f : Incident → Incident) → ((t : Incident) → f t ≡ t) → map f l ≡ l
  map_same [] f h = refl
  map_same (t ∷ l) f h = ground (arith, h t, map_same l f h)

  map_written :
      (clear : Bool) (r : Incident) (l : List Incident)
      → clear ≡ a.clear
      → is_settled a.clear r ≡ false
      → (if clear
          then map (λ t. if t.id == r.id then cleared_row t else t) l
          else map
              (λ t.
                if t.id == r.id
                then acknowledged_row a.at a.by
                    (first_characters max_ack_note_length (stripped a.note))
                    t
                else t)
              l)
        ≡ map (round (some r)) l
  unfolding round written
  map_written clear r [] e h = ground arith
  map_written clear r (t ∷ l) e h = ground (arith, map_written clear r l e h)

  map_no_rounds : (l : List Incident) → map (rounds []) l ≡ l
  unfolding rounds
  map_no_rounds [] = refl
  map_no_rounds (t ∷ l) = ap (λ m. t ∷ m) (map_no_rounds l)

  incidents-acknowledge_row :
      (d : String) (o : Option Incident) (s : Store) (changed : List String)
      → (acknowledge_row a d o (s, changed)).0.incidents ≡ map (round o) s.incidents
  unfolding write_acknowledgement round
  incidents-acknowledge_row d none s changed = sym (map_same s.incidents (round none) (λ t. refl))
  incidents-acknowledge_row d (some r) s changed = by_test (is_settled a.clear r) refl
    where
      by_test :
          (b : Bool)
          → is_settled a.clear r ≡ b
          → (if◌then◌else◌ {A = Store × List String} b
              (s, changed)
              (write_acknowledgement a r s, changed ++ (d ∷ []))).0.incidents
            ≡ map (round (some r)) s.incidents
      by_test true e = sym (map_same s.incidents (round (some r)) (λ t. rw e refl))
      by_test false e = ground (arith, map_written a.clear r s.incidents refl e)

  map-round-rounds :
      (d : String) (wanted : List String) (l : List Incident)
      → map (rounds wanted) (map (round (lookup d by_device)) l) ≡ map (rounds (d ∷ wanted)) l
  unfolding rounds
  map-round-rounds d wanted [] = refl
  map-round-rounds d wanted (t ∷ l) =
      ap (λ m. rounds wanted (round (lookup d by_device) t) ∷ m) (map-round-rounds d wanted l)

  pub incidents-acknowledge_each :
      (wanted : List String) (p : Store × List String)
      → (acknowledge_each a by_device wanted p).0.incidents ≡ map (rounds wanted) p.0.incidents
  unfolding acknowledge_each
  incidents-acknowledge_each [] p = sym (map_no_rounds p.0.incidents)
  incidents-acknowledge_each (d ∷ wanted) (s, changed) =
      incidents-acknowledge_each wanted (acknowledge_row a d (lookup d by_device) (s, changed))
      ∙ ap (map (rounds wanted)) (incidents-acknowledge_row d (lookup d by_device) s changed)
      ∙ map-round-rounds d wanted s.incidents

  -- Once its device had its turn, the row is settled.
  settled-round :
      (r t : Incident)
      → t.id ≡ r.id
      → (is_settled a.clear r ≡ true → is_settled a.clear t ≡ true)
      → is_settled a.clear (round (some r) t) ≡ true
  unfolding round written
  settled-round r t e h = ground arith

  settled-rounds :
      (d : String) (r t : Incident) (wanted : List String)
      → lookup d by_device ≡ some r
      → any (str_eq d) wanted ≡ true
      → t.id ≡ r.id
      → (is_settled a.clear r ≡ true → is_settled a.clear t ≡ true)
      → is_settled a.clear (rounds wanted t) ≡ true
  unfolding rounds
  settled-rounds d r t [] l w e h = cc
  settled-rounds d r t (j ∷ wanted) l w e h =
      by_or (str_eq d j) (any (str_eq d) wanted) w
        (λ q. (rounds-keeps wanted (round (lookup j by_device) t)).4 (
          ap (λ o. is_settled a.clear (round o t))
            (ap (λ i. lookup i by_device) (sym ((eq_iff d j).0 q)) ∙ l)
          ∙ settled-round r t e h))
        (λ w'.
          settled-rounds d r (round (lookup j by_device) t) wanted l w'
            ((round-keeps (lookup j by_device) t).0 ∙ e)
            (λ q. (round-keeps (lookup j by_device) t).4 (h q)))

-- The row of the device is settled, or there is none.
abbrev pub is_settled_row : Bool → Option Incident → Bool
is_settled_row clear none = true
is_settled_row clear (some r) = is_settled clear r

settled-option_map :
    (clear : Bool) (f : Incident → Incident) (o : Option Incident)
    → ((r : Incident) → o ≡ some r → is_settled clear (f r) ≡ true)
    → is_settled_row clear (option_map f o) ≡ true
settled-option_map clear f none h = refl
settled-option_map clear f (some r) h = h r refl

pub settled-dict_map :
    (a : Acknowledgement) (by_device : Dict Incident) (wanted : List String) (d : String)
    → any (str_eq d) wanted ≡ true
    → is_settled_row a.clear (lookup d (dict_map (rounds a by_device wanted) by_device)) ≡ true
settled-dict_map a by_device wanted d w =
    ap (is_settled_row a.clear) (lookup-dict_map (rounds a by_device wanted) d by_device)
    ∙ settled-option_map a.clear (rounds a by_device wanted) (lookup d by_device)
        (λ r l. settled-rounds a by_device d r r wanted l w refl (λ h. h))
