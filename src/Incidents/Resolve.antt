-- ===== src/Incidents/Resolve.antt =====
-- What `resolve_open_alert_instances_for_site` does to every row of the table.
use nautobot_maps.Prelude.{
  ℕ, ◌-◌, ◌/◌, ◌≡◌, refl, ap, ◌∙◌, Bool, true, false, not, ◌&&◌, List, [], ◌∷◌, map, String, str_eq,
  leb, ◌==◌, arith, if◌then◌else◌, any, filter, Dict, lookup,
}
use nautobot_maps.Availability.Interval.{Time, microseconds}
use nautobot_maps.Incidents.Store.{Incident, Store, can_resolve, resolved_row, open_alerts_of_site}
use nautobot_maps.Incidents.Lifecycle.{
  end_of, resolve_one, resolve_each, resolve_open_alert_instances_for_site,
}

-- The id is the table's key.
abbrev pub has_distinct_ids : List Incident → Bool
has_distinct_ids [] = true
has_distinct_ids (r ∷ rows) = not (any (λ t. t.id == r.id) rows) && has_distinct_ids rows

module _ (open_keys : List String) (checked_at : Time) (came_up : Dict Time) where
  -- When the incident of a row would end.
  abbrev pub ends_at : Incident → Time
  ends_at r = end_of (lookup r.device_id came_up) r.down_started_at checked_at

  -- A row after the round of the loop for the row `r`.
  pub after_round : Incident → Incident → Incident
  after_round r t =
      if not (any (str_eq r.key) open_keys) && can_resolve r.id (ends_at r) t
      then resolved_row (ends_at r) ((ends_at r - r.down_started_at) / microseconds) t
      else t

  after_rounds : List Incident → Incident → Incident
  after_rounds [] t = t
  after_rounds (r ∷ rows) t = after_rounds rows (after_round r t)

  map_skipped :
      (r : Incident) (rows : List Incident)
      → any (str_eq r.key) open_keys ≡ true
      → map (after_round r) rows ≡ rows
  unfolding after_round
  map_skipped r [] h = refl
  map_skipped r (t ∷ rows) h = ground (arith, map_skipped r rows h)

  map_unresolved :
      (r : Incident) (rows : List Incident)
      → any (can_resolve r.id (ends_at r)) rows ≡ false
      → map (after_round r) rows ≡ rows
  unfolding after_round
  map_unresolved r [] h = refl
  map_unresolved r (t ∷ rows) h = ground (arith, map_unresolved r rows)

  map_resolved :
      (r : Incident) (rows : List Incident)
      → any (str_eq r.key) open_keys ≡ false
      → map
          (λ t.
            if can_resolve r.id (ends_at r) t
            then resolved_row (ends_at r) ((ends_at r - r.down_started_at) / microseconds) t
            else t)
          rows
        ≡ map (after_round r) rows
  unfolding after_round
  map_resolved r [] h = refl
  map_resolved r (t ∷ rows) h = ground (arith, map_resolved r rows h)

  pub incidents-resolve_one :
      (r : Incident) (s : Store)
      → (resolve_one open_keys checked_at came_up r s).incidents ≡ map (after_round r) s.incidents
  unfolding resolve_one
  incidents-resolve_one r s =
      ground
        (arith, map_skipped r s.incidents, map_unresolved r s.incidents, map_resolved r s.incidents)

  map_rounds :
      (r : Incident) (rows l : List Incident)
      → map (after_rounds rows) (map (after_round r) l) ≡ map (after_rounds (r ∷ rows)) l
  unfolding after_rounds
  map_rounds r rows [] = refl
  map_rounds r rows (t ∷ l) =
      ap (λ m. after_rounds rows (after_round r t) ∷ m) (map_rounds r rows l)

  map_no_rounds : (l : List Incident) → l ≡ map (after_rounds []) l
  unfolding after_rounds
  map_no_rounds [] = refl
  map_no_rounds (t ∷ l) = ap (λ m. t ∷ m) (map_no_rounds l)

  incidents-resolve_each :
      (rows : List Incident) (s : Store)
      → (resolve_each open_keys checked_at came_up rows s).incidents
        ≡ map (after_rounds rows) s.incidents
  unfolding resolve_each
  incidents-resolve_each [] s = map_no_rounds s.incidents
  incidents-resolve_each (r ∷ rows) s =
      incidents-resolve_each rows (resolve_one open_keys checked_at came_up r s)
      ∙ ap (map (after_rounds rows)) (incidents-resolve_one r s)
      ∙ map_rounds r rows s.incidents

  other_round : (r t : Incident) → (t.id == r.id) ≡ false → after_round r t ≡ t
  unfolding after_round can_resolve
  other_round r t h = ground arith

  map_other_round :
      (r : Incident) (rows l : List Incident)
      → any (λ t. t.id == r.id) l ≡ false
      → map (after_rounds (r ∷ rows)) l ≡ map (after_rounds rows) l
  unfolding after_rounds
  map_other_round r rows [] h = refl
  map_other_round r rows (t ∷ l) h = ground (arith, other_round r t, map_other_round r rows l)

  -- A round keeps the row's id and key, and opens nothing.
  pub after_round-keeps :
      (r t : Incident)
      → ((after_round r t).id ≡ t.id)
        × ((after_round r t).key ≡ t.key)
        × ((after_round r t).is_open ≡ true → t.is_open ≡ true)
  unfolding after_round can_resolve
  after_round-keeps r t = ground arith

  no_rounds_left :
      (t : Incident) (rows : List Incident)
      → any (λ r. r.id == t.id) rows ≡ false
      → after_rounds rows t ≡ t
  unfolding after_rounds
  no_rounds_left t [] h = refl
  no_rounds_left t (r ∷ rows) h =
      ap (after_rounds rows) (other_round r t (ground arith)) ∙ no_rounds_left t rows (ground arith)

  first_round_own :
      (t : Incident) (rows : List Incident)
      → any (λ r. r.id == t.id) rows ≡ false
      → after_rounds (t ∷ rows) t ≡ after_round t t
  unfolding after_rounds
  first_round_own t rows h =
      no_rounds_left (after_round t t) rows
        (ap (λ n. any (λ r. r.id == n) rows) (after_round-keeps t t).0 ∙ h)

  absent-filter :
      (p : Incident → Bool) (n : ℕ) (l : List Incident)
      → any (λ r. r.id == n) l ≡ false
      → any (λ r. r.id == n) (filter p l) ≡ false
  absent-filter p n [] h = refl
  absent-filter p n (u ∷ l) h = ground (arith, absent-filter p n l)

  rounds_of_filter :
      (p : Incident → Bool) (l : List Incident)
      → has_distinct_ids l ≡ true
      → map (after_rounds (filter p l)) l ≡ map (λ t. if p t then after_round t t else t) l
  rounds_of_filter p [] h = refl
  rounds_of_filter p (t ∷ l) h =
      head (p t)
      ∙ ap (λ m. (if p t then after_round t t else t) ∷ m) (rounds_of_filter p l (ground arith))
    where
      head :
          (b : Bool)
          → map (after_rounds (if b then t ∷ filter p l else filter p l)) (t ∷ l)
            ≡ (if b then after_round t t else t) ∷ map (after_rounds (filter p l)) l
      head true =
          ap (λ x. x ∷ map (after_rounds (t ∷ filter p l)) l)
            (first_round_own t (filter p l) (absent-filter p t.id l (ground arith)))
          ∙ ap (λ m. after_round t t ∷ m) (map_other_round t (filter p l) l (ground arith))
      head false =
          ap (λ x. x ∷ map (after_rounds (filter p l)) l)
            (no_rounds_left t (filter p l) (absent-filter p t.id l (ground arith)))

-- An incident that the call resolves: open, of the site, not to stay open, and not begun after its
-- end.
abbrev pub is_recovered : String → List String → Time → Dict Time → Incident → Bool
is_recovered site_id open_keys checked_at came_up r =
    str_eq r.site_id site_id
    && r.is_open
    && not (any (str_eq r.key) open_keys)
    && leb r.down_started_at (ends_at open_keys checked_at came_up r)

abbrev pub recovered_row : Time → Dict Time → Incident → Incident
recovered_row checked_at came_up r =
    let at = end_of (lookup r.device_id came_up) r.down_started_at checked_at in
    resolved_row at ((at - r.down_started_at) / microseconds) r

own_round :
    (site_id : String) (open_keys : List String) (checked_at : Time) (came_up : Dict Time)
    (t : Incident)
    → (if str_eq t.site_id site_id && t.is_open
        then after_round open_keys checked_at came_up t t
        else t)
      ≡ (if is_recovered site_id open_keys checked_at came_up t
          then recovered_row checked_at came_up t
          else t)
unfolding after_round can_resolve
own_round site_id open_keys checked_at came_up t = ground arith

map_own_rounds :
    (site_id : String) (open_keys : List String) (checked_at : Time) (came_up : Dict Time)
    (l : List Incident)
    → map
        (λ t.
          if str_eq t.site_id site_id && t.is_open
          then after_round open_keys checked_at came_up t t
          else t)
        l
      ≡ map
          (λ t.
            if is_recovered site_id open_keys checked_at came_up t
            then recovered_row checked_at came_up t
            else t)
          l
map_own_rounds site_id open_keys checked_at came_up [] = refl
map_own_rounds site_id open_keys checked_at came_up (t ∷ l) = ground (
  arith,
  own_round site_id open_keys checked_at came_up t,
  map_own_rounds site_id open_keys checked_at came_up l,
)

-- With one row for each id, `resolve_open_alert_instances_for_site` resolves exactly the open
-- incidents of the site that are not to stay open and did not begin after their end, each at its end
-- and with its down time added, and leaves every other row as it is.
pub resolve_exact :
    (site_id : String) (open_keys : List String) (checked_at : Time) (came_up : Dict Time)
    (s : Store)
    → has_distinct_ids s.incidents ≡ true
    → (resolve_open_alert_instances_for_site site_id open_keys checked_at came_up s).incidents
      ≡ map
          (λ r.
            if is_recovered site_id open_keys checked_at came_up r
            then recovered_row checked_at came_up r
            else r)
          s.incidents
unfolding resolve_open_alert_instances_for_site
resolve_exact site_id open_keys checked_at came_up s h =
    incidents-resolve_each open_keys checked_at came_up (open_alerts_of_site s site_id) s
    ∙ rounds_of_filter open_keys checked_at came_up (λ r. str_eq r.site_id site_id && r.is_open)
        s.incidents h
    ∙ map_own_rounds site_id open_keys checked_at came_up s.incidents
