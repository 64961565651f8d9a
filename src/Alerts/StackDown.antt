-- ===== src/Alerts/StackDown.antt =====
-- A stack is down exactly when one of its members is.
use nautobot_maps.Prelude.{
  ℕ, ◌≡◌, refl, ap, ◌∙◌, sym, Bool, true, false, not, ◌&&◌, ◌||◌, List, [], ◌∷◌, Option, none, some,
  ◌==◌, arith, if◌then◌else◌, any, any-sort_by, any-insert_by, insert_by, sort_by,
}
use nautobot_maps.Text.{Text, lower, strip, strip_left, is_in}
use nautobot_maps.Alerts.Device.{down_statuses}
use nautobot_maps.Alerts.Stacks.{
  or_own, Member, is_down_member, status_of, leads, first_down, Group, group_of, passed_on,
  merged_lead,
}

-- What the members of a stack come to: its lead, with what a down member passes on.
abbrev pub is_down_group : Option Group → Bool
is_down_group none = false
is_down_group (some g) = is_down_member (merged_lead g.lead g.down)

passed_down :
    (down lead : Member) → is_down_member down ≡ true → is_down_member (passed_on down lead) ≡ true
unfolding is_down_member lower strip strip_left
passed_down down lead h = by_status down.status h
  where
    by_status :
        (o : Option Text)
        → is_in (strip (lower (status_of o))) down_statuses ≡ true
        → is_in (strip (lower (status_of (or_own o lead.status)))) down_statuses ≡ true
    by_status none e = cc
    by_status (some s) e = e

first_down-is_down_member :
    (devices : List Member) (d : Member) → first_down devices ≡ some d → is_down_member d ≡ true
first_down-is_down_member [] d e = cc
first_down-is_down_member (c ∷ devices) d e =
    by_test (first_down-is_down_member devices d) (is_down_member c) refl e
  where
    by_test :
        (first_down devices ≡ some d → is_down_member d ≡ true)
        → (b : Bool) → is_down_member c ≡ b
        → (if b then some c else first_down devices) ≡ some d
        → is_down_member d ≡ true
    by_test ih true h f = cc
    by_test ih false h f = ih f

none_is_down :
    (devices : List Member) → first_down devices ≡ none → any is_down_member devices ≡ false
none_is_down [] e = refl
none_is_down (c ∷ devices) e = by_test (none_is_down devices) (is_down_member c) e
  where
    by_test :
        (first_down devices ≡ none → any is_down_member devices ≡ false)
        → (b : Bool) → (if b then some c else first_down devices) ≡ none
        → (b || any is_down_member devices) ≡ false
    by_test ih true f = cc
    by_test ih false f = ih f

any_down :
    (devices : List Member) (d : Member)
    → first_down devices ≡ some d
    → any is_down_member devices ≡ true
any_down [] d e = cc
any_down (c ∷ devices) d e = by_test (any_down devices d) (is_down_member c) e
  where
    by_test :
        (first_down devices ≡ some d → any is_down_member devices ≡ true)
        → (b : Bool) → (if b then some c else first_down devices) ≡ some d
        → (b || any is_down_member devices) ≡ true
    by_test ih true f = refl
    by_test ih false f = ih f

abbrev has_handle : ℕ → Option Member → Bool
has_handle n none = false
has_handle n (some d) = d.handle == n

-- The first that is down is one of the list.
other_handle :
    (n : ℕ) (devices : List Member) (d : Member)
    → first_down devices ≡ some d
    → any (λ e. e.handle == n) devices ≡ false
    → (d.handle == n) ≡ false
other_handle n [] d e h = cc
other_handle n (c ∷ devices) d e h = by_test (other_handle n devices d) (is_down_member c) e
  where
    by_test :
        (first_down devices ≡ some d
          → any (λ e. e.handle == n) devices ≡ false
          → (d.handle == n) ≡ false)
        → (b : Bool) → (if b then some c else first_down devices) ≡ some d
        → (d.handle == n) ≡ false
    by_test ih true f = ap (has_handle n) (sym f) ∙ ground arith
    by_test ih false f = ih f (ground arith)

-- Every member is an object of its own.
abbrev pub has_distinct_handles : List Member → Bool
has_distinct_handles [] = true
has_distinct_handles (d ∷ devices) =
    not (any (λ e. e.handle == d.handle) devices) && has_distinct_handles devices

distinct-insert_by :
    (d : Member) (devices : List Member)
    → has_distinct_handles (insert_by leads d devices)
      ≡ (not (any (λ e. e.handle == d.handle) devices) && has_distinct_handles devices)
distinct-insert_by d [] = refl
distinct-insert_by d (c ∷ devices) =
    ground (
      arith,
      any-insert_by leads (λ e. e.handle == c.handle) d devices,
      distinct-insert_by d devices,
    )

distinct-sort_by :
    (devices : List Member)
    → has_distinct_handles (sort_by leads devices) ≡ has_distinct_handles devices
distinct-sort_by [] = refl
distinct-sort_by (d ∷ devices) =
    distinct-insert_by d (sort_by leads devices)
    ∙ ap (λ b. not b && has_distinct_handles (sort_by leads devices))
        (any-sort_by leads (λ e. e.handle == d.handle) devices)
    ∙ ap (λ b. not (any (λ e. e.handle == d.handle) devices) && b) (distinct-sort_by devices)

is_down_group-ordered :
    (ordered : List Member)
    → has_distinct_handles ordered ≡ true
    → is_down_group (group_of ordered) ≡ any is_down_member ordered
is_down_group-ordered [] h = refl
is_down_group-ordered (d ∷ devices) h = by_lead (is_down_member d) refl
  where
    by_rest :
        (o : Option Member)
        → first_down devices ≡ o
        → is_down_member d ≡ false
        → is_down_member (merged_lead d o) ≡ any is_down_member devices
    by_rest none e f = f ∙ sym (none_is_down devices e)
    by_rest (some c) e f =
        rw (other_handle d.handle devices c e (ground arith))
          (passed_down c d (first_down-is_down_member devices c e) ∙ sym (any_down devices c e))

    by_lead :
        (b : Bool)
        → is_down_member d ≡ b
        → is_down_member (merged_lead d (if b then some d else first_down devices))
          ≡ (b || any is_down_member devices)
    by_lead true e = ground arith
    by_lead false e = by_rest (first_down devices) refl e

-- The device that stands for a stack, whose members are distinct objects, is down exactly when one of
-- the members is, whichever leads it.
pub group_of-is_down_group :
    (members : List Member)
    → has_distinct_handles members ≡ true
    → is_down_group (group_of (sort_by leads members)) ≡ any is_down_member members
group_of-is_down_group members h =
    is_down_group-ordered (sort_by leads members) (distinct-sort_by members ∙ h)
    ∙ any-sort_by leads is_down_member members
