-- ===== src/Planned/Listing.antt =====
-- `list_windows`, `history` and `history_exceeds` of maintenance_service.py.
use nautobot_maps.Prelude.{
  ℕ, zero, suc, ◌+◌, ◌*◌, min, ◌≡◌, refl, ap, ◌∙◌, Bool, true, false, not, ◌&&◌, ◌||◌, List, [],
  ◌∷◌, map, Option, none, some, String, str_eq, ltb, leb, ◌==◌, arith, if◌then◌else◌, length,
  filter, any, all, insert_by, sort_by,
}
use nautobot_maps.Availability.Interval.{Time}
use nautobot_maps.Planned.Window.{Window, State, state, not_ended, is_open_state}

-- `LIMIT`
abbrev pub limited {ℓ} : {A : Type ℓ} → ℕ → List A → List A
limited n [] = []
limited zero (x ∷ l) = []
limited (suc n) (x ∷ l) = x ∷ limited n l

abbrev pub day : ℕ
day = 86_400_000_000

-- The time is after `recent_days` before `at`.
abbrev pub is_since : Time → ℕ → Time → Bool
is_since at recent_days t = ltb at (t + recent_days * day)

abbrev pub ended_since : Time → ℕ → Window → Bool
ended_since at recent_days w = elim w.ended_at [ none ↦ false | some e ↦ is_since at recent_days e ]

-- The conditions of `list_windows`.
unfoldable pub is_listed : String → Bool → Time → ℕ → Window → Bool
is_listed site_id include_past at recent_days w =
    (str_eq site_id "" || str_eq w.site_id site_id)
    && (include_past
        || (if ltb 0 recent_days
            then not_ended w && is_since at recent_days w.ends_at || ended_since at recent_days w
            else not_ended w && ltb at w.ends_at))

-- `ended_at IS NOT NULL OR ends_at <= at`
abbrev pub is_over : Time → Window → Bool
is_over at w = not (not_ended w) || leb w.ends_at at

-- The order of the list: open ones first, then by start and id.
unfoldable pub listed_not_after : Time → Window → Window → Bool
listed_not_after at a b =
    if not (is_over at a) && is_over at b
    then true
    else if is_over at a && not (is_over at b)
    then false
    else ltb a.starts_at b.starts_at || a.starts_at == b.starts_at && leb a.id b.id

abbrev pub with_state : Time → List Window → List (Window × State)
with_state at = map (λ w. (w, state w at))

unfoldable pub list_windows : List Window → String → Bool → Time → ℕ → ℕ → List (Window × State)
list_windows table site_id include_past at recent_days limit = with_state at (
    limited limit (
      sort_by (listed_not_after at) (filter (is_listed site_id include_past at recent_days) table)))

abbrev pub of_sites : Option (List String) → Window → Bool
of_sites none w = true
of_sites (some ids) w = any (str_eq w.site_id) ids

-- `_history_where`
unfoldable pub in_history : Time → Time → Option (List String) → Window → Bool
in_history start end site_ids w =
    ltb w.starts_at end
    && ltb start w.ends_at
    && elim w.ended_at [ none ↦ true | some e ↦ ltb start e || ltb e w.starts_at ]
    && of_sites site_ids w

-- Newest first.
unfoldable pub newer : Window → Window → Bool
newer a b = ltb b.starts_at a.starts_at || a.starts_at == b.starts_at && leb b.id a.id

unfoldable pub history :
    List Window → Time → Time → Option (List String) → ℕ → Time → List (Window × State)
history table start end site_ids limit at =
    with_state at (limited limit (sort_by newer (filter (in_history start end site_ids) table)))

-- Whether there is a row after the first `limit`.
abbrev pub has_more : ℕ → List Window → Bool
has_more n [] = false
has_more zero (w ∷ l) = true
has_more (suc n) (w ∷ l) = has_more n l

unfoldable pub history_exceeds : List Window → Time → Time → Option (List String) → ℕ → Bool
history_exceeds table start end site_ids limit =
    has_more limit (filter (in_history start end site_ids) table)

module _ (le : Window → Window → Bool) where
  length-insert_by : (w : Window) (l : List Window) → length (insert_by le w l) ≡ suc (length l)
  length-insert_by w [] = refl
  length-insert_by w (v ∷ l) = ground (arith, length-insert_by w l)

  length-sort_by : (l : List Window) → length (sort_by le l) ≡ length l
  length-sort_by [] = refl
  length-sort_by (w ∷ l) = length-insert_by w (sort_by le l) ∙ ap suc (length-sort_by l)

  all-insert_by :
      (p : Window → Bool) (w : Window) (l : List Window)
      → all p (insert_by le w l) ≡ (p w && all p l)
  all-insert_by p w [] = refl
  all-insert_by p w (v ∷ l) = ground (arith, all-insert_by p w l)

  all-sort_by : (p : Window → Bool) (l : List Window) → all p (sort_by le l) ≡ all p l
  all-sort_by p [] = refl
  all-sort_by p (w ∷ l) = all-insert_by p w (sort_by le l) ∙ ap (λ b. p w && b) (all-sort_by p l)

length-limited : (n : ℕ) (l : List Window) → length (limited n l) ≡ min n (length l)
length-limited n [] = ground arith
length-limited zero (w ∷ l) = ground arith
length-limited (suc n) (w ∷ l) = ground (arith, length-limited n l)

all-limited :
    (p : Window → Bool) (n : ℕ) (l : List Window) → all p l ≡ true → all p (limited n l) ≡ true
all-limited p n [] h = refl
all-limited p zero (w ∷ l) h = refl
all-limited p (suc n) (w ∷ l) h = ground (arith, all-limited p n l)

length-with_state : (at : Time) (l : List Window) → length (with_state at l) ≡ length l
length-with_state at [] = refl
length-with_state at (w ∷ l) = ap suc (length-with_state at l)

all-with_state :
    (at : Time) (l : List Window)
    → all (λ w. is_open_state (state w at)) l ≡ true
    → all (λ e. is_open_state e.1) (with_state at l) ≡ true
all-with_state at [] h = refl
all-with_state at (w ∷ l) h = ground (arith, all-with_state at l)

all-filter : (p : Window → Bool) (l : List Window) → all p (filter p l) ≡ true
all-filter p [] = refl
all-filter p (w ∷ l) = ground (arith, all-filter p l)

-- Without past windows, for all sites.
listed_open :
    (at : Time) (table : List Window)
    → all (λ w. ltb w.starts_at w.ends_at) table ≡ true
    → filter (is_listed "" false at 0) table ≡ filter (λ w. is_open_state (state w at)) table
unfolding is_listed state
listed_open at [] h = refl
listed_open at (w ∷ table) h = ground (arith, listed_open at table)

-- When every window ends after it starts, the list for all sites without past windows has only
-- windows that are active or upcoming, and it has all of them, or `limit` if there are more.
pub list_windows-open :
    (table : List Window) (at : Time) (limit : ℕ)
    → all (λ w. ltb w.starts_at w.ends_at) table ≡ true
    → (all (λ e. is_open_state e.1) (list_windows table "" false at 0 limit) ≡ true)
      × (length (list_windows table "" false at 0 limit)
          ≡ min limit (length (filter (λ w. is_open_state (state w at)) table)))
unfolding list_windows
list_windows-open table at limit h =
    let open_rows = filter (is_listed "" false at 0) table in
    let sorted = sort_by (listed_not_after at) open_rows in
    (
      all-with_state at (limited limit sorted) (
          all-limited (λ w. is_open_state (state w at)) limit sorted
            (all-sort_by (listed_not_after at) (λ w. is_open_state (state w at)) open_rows
              ∙ ap (all (λ w. is_open_state (state w at))) (listed_open at table h)
              ∙ all-filter (λ w. is_open_state (state w at)) table)),
      length-with_state at (limited limit sorted)
          ∙ length-limited limit sorted
          ∙ ap (min limit)
              (length-sort_by (listed_not_after at) open_rows ∙ ap length (listed_open at table h)),
    )

none_more : (n : ℕ) (l : List Window) → has_more n l ≡ false → min n (length l) ≡ length l
none_more n [] h = ground arith
none_more zero (w ∷ l) h = ground arith
none_more (suc n) (w ∷ l) h = ground (arith, none_more n l h)

-- When `history_exceeds` says no, `history` with the same limit has every window of the period.
pub history_complete :
    (table : List Window) (start end : Time) (site_ids : Option (List String)) (limit : ℕ)
    (at : Time)
    → history_exceeds table start end site_ids limit ≡ false
    → length (history table start end site_ids limit at)
      ≡ length (filter (in_history start end site_ids) table)
unfolding history history_exceeds
history_complete table start end site_ids limit at h =
    let rows = filter (in_history start end site_ids) table in
    length-with_state at (limited limit (sort_by newer rows))
    ∙ length-limited limit (sort_by newer rows)
    ∙ ap (min limit) (length-sort_by newer rows)
    ∙ none_more limit rows h
