-- ===== src/Tokens/Table.antt =====
-- The table `api_tokens`, with the statements of api/app/repositories/token_repository.py on it, and
-- the names of Nautobot's tenants, in order. Rows stand in the order of their ids.
use nautobot_maps.Prelude.{
  ℕ, ◌+◌, Bool, true, false, not, ◌&&◌, ◌||◌, List, [], ◌∷◌, ◌++◌, map, Option, none, some, String,
  str_eq, leb, ltb, ◌==◌, min, if◌then◌else◌, filter, any, sort_by,
}
use nautobot_maps.Text.{text, text_eq, lower}
use nautobot_maps.Availability.Interval.{Time}

pub data Role : Type 0 where
  viewer operator admin status : Role

pub record Token : Type 0 where
  pub id : ℕ
  pub name : String
  pub token_hash : String
  pub prefix : String
  pub role : Role
  pub tenant : Option String
  pub created_by : String
  pub created_at : Time
  pub expires_at : Option Time
  pub last_used_at : Option Time
  pub revoked_at : Option Time
  pub revoked_by : String

pub record Table : Type 0 where
  pub rows : List Token
  pub next_id : ℕ

-- `lower(a) = lower(b)`
unfoldable pub same_letters : String → String → Bool
unfolding lower
same_letters a b = text_eq (lower (text a)) (lower (text b))

abbrev pub first_name : String → List String → Option String
first_name tenant [] = none
first_name tenant (n ∷ names) = if same_letters n tenant then some n else first_name tenant names

unfoldable pub nautobot_tenant_name : List String → String → Option String
nautobot_tenant_name names tenant = first_name tenant names

-- The constraints of the table: a name that is taken inserts nothing, a hash that is taken is an error.
pub data Inserted : Type 0 where
  name_conflict hash_conflict : Inserted
  inserted_row : Token → Inserted

abbrev pub has_name : String → List Token → Bool
has_name name = any (λ r. str_eq r.name name)

abbrev pub has_hash : String → List Token → Bool
has_hash hash = any (λ r. str_eq r.token_hash hash)

-- `values` has everything but the id.
unfoldable pub insert_token : Token → Table → Inserted × Table
insert_token values t =
    let row = record values { id = t.next_id } in
    if has_name values.name t.rows
    then (name_conflict, t)
    else if has_hash values.token_hash t.rows
    then (hash_conflict, t)
    else (inserted_row row, record { rows = t.rows ++ (row ∷ []); next_id = t.next_id + 1 })

-- `ORDER BY created_at DESC, id DESC`
abbrev pub newest_first : Token → Token → Bool
newest_first a b = ltb b.created_at a.created_at || (a.created_at == b.created_at && leb b.id a.id)

abbrev pub is_of_tenant : String → Option String → Bool
is_of_tenant tenant none = false
is_of_tenant tenant (some t) = same_letters t tenant

unfoldable pub list_all : Option String → Table → List Token
list_all none t = sort_by newest_first t.rows
list_all (some tenant) t =
    sort_by newest_first
      (if str_eq tenant "" then t.rows else filter (λ r. is_of_tenant tenant r.tenant) t.rows)

abbrev pub is_set {ℓ} : {A : Type ℓ} → Option A → Bool
is_set none = false
is_set (some a) = true

-- `least(a, b)`, which passes over NULL.
abbrev pub least_of : Option Time → Option Time → Option Time
least_of none b = b
least_of (some a) none = some a
least_of (some a) (some b) = some (min a b)

-- `at <= :now`, which NULL is not.
abbrev pub is_by : Option Time → Time → Bool
is_by none now = false
is_by (some at) now = leb at now

-- `at <= :now - older`
abbrev pub is_by_cutoff : Option Time → Time → Time → Bool
is_by_cutoff none now older = false
is_by_cutoff (some at) now older = leb (at + older) now

-- `INACTIVE`, with the cutoff `older` before `now`.
unfoldable pub is_inactive : Time → Time → Token → Bool
is_inactive now older r =
    (is_set r.revoked_at || is_by r.expires_at now)
    && is_by_cutoff (least_of r.revoked_at r.expires_at) now older

unfoldable pub inactive : Time → Time → Bool → Table → List Token × Table
unfolding is_inactive
inactive now older delete t = (
  filter (is_inactive now older) t.rows,
  record t { rows = if delete then filter (λ r. not (is_inactive now older r)) t.rows else t.rows },
)

abbrev pub first_row : List Token → Option Token
first_row [] = none
first_row (r ∷ rows) = some r

abbrev pub can_revoke : ℕ → Token → Bool
can_revoke id r = r.id == id && not (is_set r.revoked_at)

abbrev pub revoked_row : Time → String → Token → Token
revoked_row now by r = record r { revoked_at = some now; revoked_by = by }

unfoldable pub revoke_row : ℕ → Time → String → Table → Option Token × Table
revoke_row id now by t = (
  first_row (map (revoked_row now by) (filter (can_revoke id) t.rows)),
  record t { rows = map (λ r. if can_revoke id r then revoked_row now by r else r) t.rows },
)

unfoldable pub get : ℕ → Table → Option Token
get id t = first_row (filter (λ r. r.id == id) t.rows)

-- Last used before `now - stale`, or never.
abbrev pub is_stale : Time → Time → Token → Bool
is_stale now stale r = elim r.last_used_at [ none ↦ true | some at ↦ ltb (at + stale) now ]

unfoldable pub is_active_hash : String → Time → Token → Bool
is_active_hash hash now r =
    str_eq r.token_hash hash && not (is_set r.revoked_at) && not (is_by r.expires_at now)

unfoldable pub find_active : String → Time → Table → Option Token
unfolding is_active_hash
find_active hash now t = first_row (filter (is_active_hash hash now) t.rows)

unfoldable pub touch : ℕ → Time → Time → Table → Table
touch id now stale t = record t {
  rows =
      map
        (λ r.
          if r.id == id && is_stale now stale r then record r { last_used_at = some now } else r)
        t.rows;
}
