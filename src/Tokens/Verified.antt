-- ===== src/Tokens/Verified.antt =====
-- Which tokens `verify` accepts, and that a token just created is one of them.

use nautobot_maps.Prelude.{
  ◌+◌, ◌≡◌, refl, ap, ◌∙◌, sym, Bool, true, false, ◌&&◌, List, [], ◌∷◌, ◌++◌, Option, none, some,
  String, str_eq, eq_iff, arith, if◌then◌else◌, filter, any,
}
use nautobot_maps.Text.{starts_with, count_characters, joined}
use nautobot_maps.Availability.Interval.{Time}
use nautobot_maps.Tokens.Table.{
  Token, Table, Inserted, has_name, has_hash, insert_token, is_set, is_by, first_row,
  is_active_hash, find_active,
}
use nautobot_maps.Tokens.Service.{
  TokenState, active, expired, revoked, token_state, is_token, Checked, checked, refused,
  if_checked, Created, TokenBody, new_token, insert_checked, answer_insert, create_token, Access,
  access_of, answer_found, verify, token_prefix, read_name, read_role, read_tenant, read_expiry,
}

abbrev pub is_active : TokenState → Bool
is_active active = true
is_active expired = false
is_active revoked = false

first_row-is_set : (p : Token → Bool) (l : List Token) → is_set (first_row (filter p l)) ≡ any p l
first_row-is_set p [] = refl
first_row-is_set p (r ∷ l) = ground (arith, first_row-is_set p l)

same_rows :
    (hash : String) (now : Time) (l : List Token)
    → any (is_active_hash hash now) l
      ≡ any (λ r. str_eq r.token_hash hash && is_active (token_state r now)) l
unfolding is_active_hash token_state
same_rows hash now [] = refl
same_rows hash now (r ∷ l) = ground (arith, same_rows hash now l)

answer_found-is_set :
    (now : Time) (o : Option Token) (t : Table) → is_set (answer_found now o t).0 ≡ is_set o
answer_found-is_set now none t = refl
answer_found-is_set now (some r) t = refl

-- `verify` accepts exactly the texts with a token's shape whose hash is that of a row that is active.
pub verify-accepts :
    (digest : String → String) (token : String) (now : Time) (t : Table)
    → is_set (verify digest token now t).0 ≡ (
        is_token token
        && any (λ r. str_eq r.token_hash (digest token) && is_active (token_state r now)) t.rows)
unfolding verify find_active
verify-accepts digest token now t = by_shape (is_token token)
  where
    by_shape :
        (b : Bool)
        → is_set
            (if◌then◌else◌ {A = Option Access × Table} b
              (answer_found now (find_active (digest token) now t) t)
              (none, t)).0
          ≡ (b
              && any
                  (λ r. str_eq r.token_hash (digest token) && is_active (token_state r now))
                  t.rows)
    by_shape true =
        answer_found-is_set now (find_active (digest token) now t) t
        ∙ first_row-is_set (is_active_hash (digest token) now) t.rows
        ∙ same_rows (digest token) now t.rows
    by_shape false = refl

-- What was checked has the property, if it passed.
abbrev pub Holds {ℓ} : {A : Type ℓ} → (A → Type 0) → Checked A → Type 0
Holds P (refused e) = Unit
Holds P (checked a) = P a

pub Holds-if_checked {ℓ} :
    {A B : Type ℓ} (P : B → Type 0) (c : Checked A) (f : A → Checked B)
    → ((a : A) → Holds P (f a))
    → Holds P (if_checked c f)
Holds-if_checked P (refused e) f h = tt
Holds-if_checked P (checked a) f h = h a

-- A row as it is inserted: the token's hash, and not revoked.
abbrev pub IsNew : String → Token → Type 0
IsNew hash r = (r.token_hash ≡ hash) × (r.revoked_at ≡ none)

pub new_token-IsNew :
    (digest : String → String) (token : String) (names : List String) (now : Time) (by : String)
    (body : TokenBody)
    → Holds (IsNew (digest token)) (new_token digest token names now by body)
unfolding new_token
new_token-IsNew digest token names now by body =
    Holds-if_checked (IsNew (digest token)) (read_name body.name) _ (λ name.
      Holds-if_checked (IsNew (digest token)) (read_role body.role) _ (λ role.
        Holds-if_checked (IsNew (digest token)) (read_tenant names role body.tenant) _ (λ tenant.
          Holds-if_checked (IsNew (digest token)) (read_expiry now body.expires_in_days) _
            (λ expires_at. (refl, refl)))))

find_appended :
    (hash : String) (now : Time) (r : Token) (l : List Token)
    → has_hash hash l ≡ false
    → is_active_hash hash now r ≡ true
    → first_row (filter (is_active_hash hash now) (l ++ (r ∷ []))) ≡ some r
unfolding is_active_hash
find_appended hash now r [] h k = ground arith
find_appended hash now r (u ∷ l) h k = ground (arith, find_appended hash now r l)

find_active-append :
    (hash : String) (now : Time) (values : Token) (t : Table)
    → IsNew hash values
    → has_hash values.token_hash t.rows ≡ false
    → is_by values.expires_at now ≡ false
    → find_active hash now (record {
      rows = t.rows ++ (record values { id = t.next_id } ∷ []);
      next_id = t.next_id + 1;
    })
      ≡ some (record values { id = t.next_id })
unfolding find_active is_active_hash
find_active-append hash now values t (same, unrevoked) fresh unexpired =
    find_appended hash now (record values { id = t.next_id }) t.rows
      (ap (λ h. has_hash h t.rows) (sym same) ∙ fresh)
      (ground (arith, eq_iff values.token_hash hash))

-- The same texts give the same answer.
answer_found-access :
    (now : Time) (o : Option Token) (r : Token) (t : Table)
    → o ≡ some r
    → (answer_found now o t).0 ≡ some (access_of r)
answer_found-access now none r t e = cc
answer_found-access now (some u) r t e = cc

created_or : Created → Checked Created → Created
created_or c (refused e) = c
created_or c (checked d) = d

-- Once the row is in the table.
verify_inserted :
    (digest : String → String) (token : String) (now later : Time) (values : Token) (t : Table)
    (c : Created)
    → is_token token ≡ true
    → IsNew (digest token) values
    → has_hash values.token_hash t.rows ≡ false
    → Path
        (Checked Created)
        (checked (record {
          row = record values { id = t.next_id; token_hash = "" };
          state = token_state (record values { id = t.next_id }) now;
          token = token;
        }))
        (checked c)
    → is_by c.row.expires_at later ≡ false
    → (verify digest c.token later (record {
      rows = t.rows ++ (record values { id = t.next_id } ∷ []);
      next_id = t.next_id + 1;
    })).0
      ≡ some (access_of c.row)
unfolding verify created_or
verify_inserted digest token now later values t c shape new fresh e unexpired =
    let same : record {
      row = record values { id = t.next_id; token_hash = "" };
      state = token_state (record values { id = t.next_id }) now;
      token = token;
    }
        ≡ c =
      ap (created_or c) e in
    let after : Table = record {
      rows = t.rows ++ (record values { id = t.next_id } ∷ []);
      next_id = t.next_id + 1;
    } in
    let found =
      find_active-append (digest token) later values t new fresh
        (ap (λ d. is_by d.row.expires_at later) same ∙ unexpired) in
    ap (λ d. (verify digest d.token later after).0) (sym same)
    ∙ (rw shape (
        answer_found-access later (find_active (digest token) later after)
          (record values { id = t.next_id }) after found))
    ∙ ap (λ d. some (access_of d.row)) same

verify-insert_token :
    (digest : String → String) (token : String) (now later : Time) (values : Token) (t : Table)
    (c : Created)
    → is_token token ≡ true
    → IsNew (digest token) values
    → (answer_insert now token (insert_token values t)).0 ≡ checked c
    → is_by c.row.expires_at later ≡ false
    → (verify digest c.token later (answer_insert now token (insert_token values t)).1).0
      ≡ some (access_of c.row)
unfolding insert_token
verify-insert_token digest token now later values t c shape new e unexpired =
    by_conflict (has_name values.name t.rows) (has_hash values.token_hash t.rows) refl e
  where
    row : Token
    row = record values { id = t.next_id }

    outcome : Bool → Bool → Inserted × Table
    outcome b d =
        if b then (Inserted.name_conflict, t) else if d then (Inserted.hash_conflict, t) else (
          Inserted.inserted_row row,
          record { rows = t.rows ++ (row ∷ []); next_id = t.next_id + 1 },
        )

    by_conflict :
        (b d : Bool)
        → has_hash values.token_hash t.rows ≡ d
        → (answer_insert now token (outcome b d)).0 ≡ checked c
        → (verify digest c.token later (answer_insert now token (outcome b d)).1).0
          ≡ some (access_of c.row)
    by_conflict true d f e = cc
    by_conflict false true f e = cc
    by_conflict false false f e =
        verify_inserted digest token now later values t c shape new f e unexpired

verify-insert_checked :
    (digest : String → String) (token : String) (now later : Time) (v : Checked Token) (t : Table)
    (c : Created)
    → is_token token ≡ true
    → Holds (IsNew (digest token)) v
    → (insert_checked now token v t).0 ≡ checked c
    → is_by c.row.expires_at later ≡ false
    → (verify digest c.token later (insert_checked now token v t).1).0 ≡ some (access_of c.row)
verify-insert_checked digest token now later (refused e) t c shape new h unexpired = cc
verify-insert_checked digest token now later (checked values) t c shape new h unexpired =
    verify-insert_token digest token now later values t c shape new h unexpired

is_token-prefix :
    (random : String) → str_eq random "" ≡ false → is_token (joined token_prefix random) ≡ true
unfolding is_token starts_with count_characters
is_token-prefix String.[] h = cc
is_token-prefix (String.◌∷◌ c s) h = ground arith

-- A token that `create` answers, from random characters that are not empty, is accepted by `verify` at
-- any time at which it has not expired, with the name, the role and the tenant it was created with.
pub verify-create_token :
    (digest : String → String) (random : String) (names : List String) (now later : Time)
    (by : String) (body : TokenBody) (t : Table) (c : Created)
    → str_eq random "" ≡ false
    → (create_token digest random names now by body t).0 ≡ checked c
    → is_by c.row.expires_at later ≡ false
    → (verify digest c.token later (create_token digest random names now by body t).1).0
      ≡ some (access_of c.row)
unfolding create_token
verify-create_token digest random names now later by body t c h e unexpired =
    let token = joined token_prefix random in
    verify-insert_checked digest token now later (new_token digest token names now by body) t c
      (is_token-prefix random h) (new_token-IsNew digest token names now by body) e unexpired
