-- ===== src/Incidents/Rows.antt =====
-- What holds of the table of incidents, and the changes of rows that keep it.
use nautobot_maps.Prelude.{
  ℕ, ◌+◌, ◌≡◌, refl, ap, ◌∙◌, Bool, true, false, not, ◌&&◌, List, [], ◌∷◌, ◌++◌, map, String,
  eq_iff, ltb, ◌==◌, any-append, arith, if◌then◌else◌, any, all,
}
use nautobot_maps.Incidents.Store.{Incident, Store, is_open_key, update_row}
use nautobot_maps.Incidents.Resolve.{has_distinct_ids}

-- For each key at most one incident is open.
abbrev pub has_one_open : List Incident → Bool
has_one_open [] = true
has_one_open (r ∷ rows) = not (r.is_open && any (is_open_key r.key) rows) && has_one_open rows

pub record IsSound (s : Store) : Type 0 where
  pub one_open : has_one_open s.incidents ≡ true
  pub distinct_ids : has_distinct_ids s.incidents ≡ true
  pub ids_below : all (λ r. ltb r.id s.next_id) s.incidents ≡ true

-- A change of rows that keeps ids and keys, and opens nothing.
module _ (f : Incident → Incident) (id_same : (r : Incident) → (f r).id ≡ r.id)
    (key_same : (r : Incident) → (f r).key ≡ r.key)
    (opens_none : (r : Incident) → (f r).is_open ≡ true → r.is_open ≡ true) where
  open_key-map :
      (k : String) (l : List Incident)
      → any (is_open_key k) l ≡ false
      → any (is_open_key k) (map f l) ≡ false
  unfolding is_open_key
  open_key-map k [] h = refl
  open_key-map k (r ∷ l) h = ground (arith, key_same r, opens_none r, open_key-map k l)

  one_open-map : (l : List Incident) → has_one_open l ≡ true → has_one_open (map f l) ≡ true
  one_open-map [] h = refl
  one_open-map (r ∷ l) h =
      ground (arith, key_same r, opens_none r, one_open-map l, open_key-map (f r).key l)

  id-map : (n : ℕ) (l : List Incident) → any (λ t. t.id == n) (map f l) ≡ any (λ t. t.id == n) l
  id-map n [] = refl
  id-map n (r ∷ l) = ground (arith, id_same r, id-map n l)

  distinct-map : (l : List Incident) → has_distinct_ids (map f l) ≡ has_distinct_ids l
  distinct-map [] = refl
  distinct-map (r ∷ l) = ground (arith, id_same r, id-map (f r).id l, distinct-map l)

  below-map :
      (n : ℕ) (l : List Incident) → all (λ r. ltb r.id n) (map f l) ≡ all (λ r. ltb r.id n) l
  below-map n [] = refl
  below-map n (r ∷ l) = ground (arith, id_same r, below-map n l)

  -- A store that differs by it.
  pub IsSound-map :
      (s t : Store)
      → t.incidents ≡ map f s.incidents
      → t.next_id ≡ s.next_id
      → IsSound s
      → IsSound t
  IsSound-map s t e n h = record {
    one_open = ap has_one_open e ∙ one_open-map s.incidents h.one_open;
    distinct_ids = ap has_distinct_ids e ∙ distinct-map s.incidents ∙ h.distinct_ids;
    ids_below =
        ap (all (λ r. ltb r.id t.next_id)) e
        ∙ ap (λ m. all (λ r. ltb r.id m) (map f s.incidents)) n
        ∙ below-map s.next_id s.incidents
        ∙ h.ids_below;
  }

pub one_open-append :
    (new : Incident) (l : List Incident)
    → any (is_open_key new.key) l ≡ false
    → has_one_open l ≡ true
    → has_one_open (l ++ (new ∷ [])) ≡ true
unfolding is_open_key
one_open-append new [] h k = ground arith
one_open-append new (r ∷ l) h k = ground (
  arith,
  one_open-append new l,
  any-append (is_open_key r.key) l (new ∷ []),
  eq_iff new.key r.key,
  eq_iff r.key new.key,
)

pub distinct-append :
    (new : Incident) (l : List Incident)
    → all (λ r. ltb r.id new.id) l ≡ true
    → has_distinct_ids l ≡ true
    → has_distinct_ids (l ++ (new ∷ [])) ≡ true
distinct-append new [] h k = ground arith
distinct-append new (r ∷ l) h k =
    ground (arith, distinct-append new l, any-append (λ t. t.id == r.id) l (new ∷ []))

pub below-append :
    (new : Incident) (l : List Incident)
    → all (λ r. ltb r.id new.id) l ≡ true
    → all (λ r. ltb r.id (new.id + 1)) (l ++ (new ∷ [])) ≡ true
below-append new [] h = ground arith
below-append new (r ∷ l) h = ground (arith, below-append new l)

pub unchanged-IsSound :
    (s t : Store) → t.incidents ≡ s.incidents → t.next_id ≡ s.next_id → IsSound s → IsSound t
unchanged-IsSound s t e n h = record {
  one_open = ap has_one_open e ∙ h.one_open;
  distinct_ids = ap has_distinct_ids e ∙ h.distinct_ids;
  ids_below =
      ap (all (λ r. ltb r.id t.next_id)) e
      ∙ ap (λ m. all (λ r. ltb r.id m) s.incidents) n
      ∙ h.ids_below;
}

-- An `UPDATE` that keeps ids and keys and opens nothing.
module _ (f : Incident → Incident) (id_same : (r : Incident) → (f r).id ≡ r.id)
    (key_same : (r : Incident) → (f r).key ≡ r.key)
    (opens_none : (r : Incident) → (f r).is_open ≡ true → r.is_open ≡ true) where
  pub update_row-IsSound : (n : ℕ) (s : Store) → IsSound s → IsSound (update_row n f s)
  update_row-IsSound n s h =
      IsSound-map (λ r. if r.id == n then f r else r) (λ r. ground (arith, id_same r))
        (λ r. ground (arith, key_same r)) (λ r. ground (arith, opens_none r)) s (update_row n f s)
        refl refl h
