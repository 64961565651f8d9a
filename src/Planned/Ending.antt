-- ===== src/Planned/Ending.antt =====
-- What `end_many` does to the table.
use nautobot_maps.Prelude.{
  ℕ, ◌≤◌, ◌≡◌, refl, ap, ◌∙◌, Bool, true, false, not, ◌&&◌, ◌||◌, List, [], ◌∷◌, map, some, String,
  ◌==◌, arith, if◌then◌else◌, filter, any, all, length,
}
use nautobot_maps.Availability.Interval.{Time}
use nautobot_maps.Planned.Window.{
  Window, state, is_open_state, is_among, selected, open_ids, end_rows, end_many,
}

-- Asked for, and not over.
abbrev to_end : Time → List ℕ → Window → Bool
to_end current ids w = is_among w.id ids && is_open_state (state w current)

open_ids-selected :
    (current : Time) (ids : List ℕ) (w : Window) (rows : List Window)
    → any (λ v. v.id == w.id) rows ≡ false
    → is_among w.id (open_ids current (selected ids rows)) ≡ false
unfolding open_ids selected
open_ids-selected current ids w [] h = refl
open_ids-selected current ids w (v ∷ rows) h = ground (arith, open_ids-selected current ids w rows)

-- A window that has been ended, at whatever time, is never open again.
ended_not_open :
    (w : Window) (t current : Time) (by : String)
    → is_open_state (state (record w { ended_at = some t; ended_by = by }) current) ≡ false
unfolding state
ended_not_open w t current by = ground arith

-- A window that is over stays over.
over_stays :
    (w : Window) (current later : Time)
    → current ≤ later
    → is_open_state (state w current) ≡ false
    → is_open_state (state w later) ≡ false
unfolding state
over_stays w current later le h = ground arith

-- Every row that is asked for and not over has its id in the list.
all_listed : Time → List ℕ → List ℕ → List Window → Bool
all_listed current ids listed = all (λ w. not (to_end current ids w) || is_among w.id listed)

module _ (current : Time) (ids : List ℕ) where
  all_listed-cons :
      (i : ℕ) (listed : List ℕ) (rows : List Window)
      → all_listed current ids listed rows ≡ true
      → all_listed current ids (i ∷ listed) rows ≡ true
  unfolding all_listed
  all_listed-cons i listed [] h = refl
  all_listed-cons i listed (w ∷ rows) h = ground (arith, all_listed-cons i listed rows)

  all_listed-open_ids :
      (rows : List Window)
      → all_listed current ids (open_ids current (selected ids rows)) rows ≡ true
  unfolding all_listed open_ids selected
  all_listed-open_ids [] = refl
  all_listed-open_ids (w ∷ rows) = ground (
    arith,
    all_listed-open_ids rows,
    all_listed-cons w.id (open_ids current (selected ids rows)) rows,
  )

  none_open_after :
      (later : Time) (by : String) (listed : List ℕ) (rows : List Window)
      → current ≤ later
      → all_listed current ids listed rows ≡ true
      → any (to_end later ids) (end_rows current by listed rows) ≡ false
  unfolding all_listed end_rows
  none_open_after later by listed [] le h = refl
  none_open_after later by listed (w ∷ rows) le h = ground (
    arith,
    none_open_after later by listed rows le,
    over_stays w current later le,
    ended_not_open w current later by,
  )

  no_open_ids :
      (rows : List Window)
      → any (to_end current ids) rows ≡ false
      → open_ids current (selected ids rows) ≡ []
  unfolding open_ids selected
  no_open_ids [] h = refl
  no_open_ids (w ∷ rows) h = ground (arith, no_open_ids rows)

-- After `end_many` no window that was asked for is active or upcoming, then or later.
pub end_many-none_open :
    (current later : Time) (ids : List ℕ) (by : String) (table : List Window)
    → current ≤ later
    → any
        (λ w. is_among w.id ids && is_open_state (state w later))
        (end_many current ids by table).table
      ≡ false
unfolding end_many
end_many-none_open current later ids by table le =
    none_open_after current ids later by (open_ids current (selected ids table)) table le
      (all_listed-open_ids current ids table)

end_rows-none :
    (current : Time) (by : String) (rows : List Window) → end_rows current by [] rows ≡ rows
unfolding end_rows
end_rows-none current by [] = refl
end_rows-none current by (w ∷ rows) = ap (λ l. w ∷ l) (end_rows-none current by rows)

-- Ending the same windows once more, then or later and by whomever, changes nothing.
pub end_many_again :
    (current later : Time) (ids : List ℕ) (by other : String) (table : List Window)
    → current ≤ later
    → let once = (end_many current ids by table).table in
      ((end_many later ids other once).table ≡ once) × ((end_many later ids other once).changed ≡ 0)
unfolding end_many
end_many_again current later ids by other table le =
    let once = end_rows current by (open_ids current (selected ids table)) table in
    let none_left = no_open_ids later ids once (end_many-none_open current later ids by table le) in
    (
      ap (λ l. end_rows later other l once) none_left ∙ end_rows-none later other once,
      ap length none_left,
    )

-- The id is the table's key.
abbrev pub has_distinct_ids : List Window → Bool
has_distinct_ids [] = true
has_distinct_ids (w ∷ rows) = not (any (λ v. v.id == w.id) rows) && has_distinct_ids rows

end_rows-other :
    (current : Time) (by : String) (i : ℕ) (listed : List ℕ) (rows : List Window)
    → any (λ v. v.id == i) rows ≡ false
    → end_rows current by (i ∷ listed) rows ≡ end_rows current by listed rows
unfolding end_rows
end_rows-other current by i listed [] h = refl
end_rows-other current by i listed (w ∷ rows) h =
    ground (arith, end_rows-other current by i listed rows)

-- What `end_many` makes of one row: it is ended now if it was asked for and is not over.
abbrev pub ended_if_open : Time → List ℕ → String → Window → Window
ended_if_open current ids by w =
    if is_among w.id ids && is_open_state (state w current)
    then record w { ended_at = some current; ended_by = by }
    else w

end_rows-empty :
    (current : Time) (by : String) (listed : List ℕ) → end_rows current by listed [] ≡ []
unfolding end_rows
end_rows-empty current by listed = refl

open_ids-cons :
    (current : Time) (ids : List ℕ) (w : Window) (rows : List Window)
    → open_ids current (selected ids (w ∷ rows)) ≡ (
        if to_end current ids w
        then w.id ∷ open_ids current (selected ids rows)
        else open_ids current (selected ids rows))
unfolding open_ids selected
open_ids-cons current ids w rows = ground arith

end_rows-cons :
    (current : Time) (by : String) (b : Bool) (listed : List ℕ) (w : Window) (rows : List Window)
    → any (λ v. v.id == w.id) rows ≡ false
    → is_among w.id listed ≡ false
    → end_rows current by (if b then w.id ∷ listed else listed) (w ∷ rows)
      ≡ (if b then record w { ended_at = some current; ended_by = by } else w)
        ∷ end_rows current by listed rows
unfolding end_rows
end_rows-cons current by true listed w rows h k =
    ground (arith, end_rows-other current by w.id listed rows h)
end_rows-cons current by false listed w rows h k = ground arith

end_rows-open_ids :
    (current : Time) (ids : List ℕ) (by : String) (rows : List Window)
    → has_distinct_ids rows ≡ true
    → end_rows current by (open_ids current (selected ids rows)) rows
      ≡ map (ended_if_open current ids by) rows
end_rows-open_ids current ids by [] h =
    end_rows-empty current by (open_ids current (selected ids []))
end_rows-open_ids current ids by (w ∷ rows) h =
    ap (λ l. end_rows current by l (w ∷ rows)) (open_ids-cons current ids w rows)
    ∙ end_rows-cons current by (to_end current ids w) (open_ids current (selected ids rows)) w rows
        (ground arith) (open_ids-selected current ids w rows (ground arith))
    ∙ ap (λ l. ended_if_open current ids by w ∷ l)
        (end_rows-open_ids current ids by rows (ground arith))

length-open_ids :
    (current : Time) (ids : List ℕ) (rows : List Window)
    → length (open_ids current (selected ids rows)) ≡ length (filter (to_end current ids) rows)
unfolding open_ids selected
length-open_ids current ids [] = refl
length-open_ids current ids (w ∷ rows) = ground (arith, length-open_ids current ids rows)

-- With one row for each id, `end_many` ends exactly the windows that were asked for and are active
-- or upcoming, leaves every other row as it is, and answers how many it ended.
pub end_many_exact :
    (current : Time) (ids : List ℕ) (by : String) (table : List Window)
    → has_distinct_ids table ≡ true
    → ((end_many current ids by table).table ≡ map (ended_if_open current ids by) table)
      × ((end_many current ids by table).changed
          ≡ length (filter (λ w. is_among w.id ids && is_open_state (state w current)) table))
unfolding end_many
end_many_exact current ids by table h =
    (end_rows-open_ids current ids by table h, length-open_ids current ids table)
