-- ===== src/Tokens/Requested.antt =====
-- Which requests `create` accepts.
use nautobot_maps.Prelude.{
  ◌≡◌, refl, ap, ◌∙◌, sym, Bool, true, false, not, ◌&&◌, ◌||◌, List, [], ◌∷◌, ◌++◌, String, ltb,
  arith, if◌then◌else◌, ◌+◌,
}
use nautobot_maps.Text.{text, stripped, count_characters, joined}
use nautobot_maps.Availability.Interval.{Time}
use nautobot_maps.Planned.Request.{Field, absent, string, items, whole, other, has_text}
use nautobot_maps.Tokens.Table.{Token, Table, Inserted, has_name, has_hash, insert_token}
use nautobot_maps.Tokens.Verified.{Holds, Holds-if_checked}
use nautobot_maps.Tokens.Service.{
  Checked, checked, refused, if_checked, TokenError, Created, TokenBody, matches_name, read_name,
  read_role, read_tenant, read_expiry, new_token, insert_checked, answer_insert, create_token,
  max_name_length, token_prefix,
}
use nautobot_maps.Tokens.Fields.{
  is_accepted, is_role, is_absent, tenant_allowed, days_allowed, body_allowed, name_of,
  read_name-is_accepted, read_expiry-is_accepted, accepted-if_checked, read_tenant-is_accepted,
  accepted-read_role,
}

new_token-is_accepted :
    (digest : String → String) (token : String) (names : List String) (now : Time) (by : String)
    (body : TokenBody)
    → is_accepted (new_token digest token names now by body) ≡ body_allowed names body
unfolding new_token
new_token-is_accepted digest token names now by body =
    let d = days_allowed body.expires_in_days in
    let roles =
      (is_role "status" body.role && tenant_allowed names body.tenant)
      || ((is_role "viewer" body.role || is_role "operator" body.role || is_role "admin" body.role)
          && is_absent body.tenant) in
    accepted-if_checked (roles && d) (read_name body.name) _ (λ name.
      accepted-read_role names body.tenant body.role d _ (λ role.
        accepted-if_checked d (read_tenant names role body.tenant) _ (λ tenant.
          accepted-if_checked true (read_expiry now body.expires_in_days) _ (λ e. refl)
          ∙ ground (arith, read_expiry-is_accepted now body.expires_in_days))
        ∙ ap (λ b. b && d) (read_tenant-is_accepted names role body.tenant)))
    ∙ ap (λ b. b && (roles && d)) (read_name-is_accepted body.name)

-- The row has the name and the hash that were asked for.
abbrev Fits : String → String → Token → Type 0
Fits name hash r = (r.name ≡ name) × (r.token_hash ≡ hash)

Holds-named :
    (f : Field) (P : Token → Type 0) (g : String → Checked Token)
    → Holds P (g (name_of f))
    → Holds P (if_checked (read_name f) g)
unfolding read_name
Holds-named (string s) P g h =
    by_text (has_text s) (
      ltb max_name_length (count_characters (stripped s)) || not (matches_name (text (stripped s))))
  where
    by_text :
        (b d : Bool)
        → Holds P (
            if_checked
              (if not b
                then refused TokenError.name_is_required
                else if d
                then refused TokenError.name_not_allowed
                else checked (stripped s))
              g)
    by_text false d = tt
    by_text true true = tt
    by_text true false = h
Holds-named absent P g h = tt
Holds-named (items l) P g h = tt
Holds-named (whole n) P g h = tt
Holds-named (other b) P g h = tt

new_token-Fits :
    (digest : String → String) (token : String) (names : List String) (now : Time) (by : String)
    (body : TokenBody)
    → Holds (Fits (name_of body.name) (digest token)) (new_token digest token names now by body)
unfolding new_token
new_token-Fits digest token names now by body =
    let P = Fits (name_of body.name) (digest token) in
    Holds-named body.name P _ (
      Holds-if_checked P (read_role body.role) _ (λ role.
        Holds-if_checked P (read_tenant names role body.tenant) _ (λ tenant.
          Holds-if_checked P (read_expiry now body.expires_in_days) _
            (λ expires_at. (refl, refl)))))

-- Accepted, or refused with the table unchanged.
abbrev IsAnswer : Bool → Table → Checked Created × Table → Type 0
IsAnswer b t (answer, after) = (is_accepted answer ≡ b) × (b ≡ false → after ≡ t)

answer_insert-IsAnswer :
    (now : Time) (token : String) (values : Token) (t : Table)
    → IsAnswer
        (not (has_name values.name t.rows) && not (has_hash values.token_hash t.rows))
        t
        (answer_insert now token (insert_token values t))
unfolding insert_token
answer_insert-IsAnswer now token values t =
    by_conflict (has_name values.name t.rows) (has_hash values.token_hash t.rows)
  where
    row : Token
    row = record values { id = t.next_id }

    by_conflict :
        (b d : Bool)
        → IsAnswer (not b && not d) t (
            answer_insert now token (
              if◌then◌else◌ {A = Inserted × Table} b
                (Inserted.name_conflict, t)
                (if◌then◌else◌ {A = Inserted × Table} d
                  (Inserted.hash_conflict, t)
                  (
                    Inserted.inserted_row row,
                    record { rows = t.rows ++ (row ∷ []); next_id = t.next_id + 1 },
                  ))))
    by_conflict true d = (refl, λ h. refl)
    by_conflict false true = (refl, λ h. refl)
    by_conflict false false = (refl, λ h. cc)

insert_checked-IsAnswer :
    (now : Time) (token name hash : String) (v : Checked Token) (t : Table) (b : Bool)
    → is_accepted v ≡ b
    → Holds (Fits name hash) v
    → IsAnswer
        (b && not (has_name name t.rows) && not (has_hash hash t.rows))
        t
        (insert_checked now token v t)
insert_checked-IsAnswer now token name hash (refused e) t b h fits = rw (sym h) (refl, λ k. refl)
insert_checked-IsAnswer now token name hash (checked values) t b h (named, hashed) =
    rw (sym h, sym named, sym hashed) (answer_insert-IsAnswer now token values t)

create_token-IsAnswer :
    (digest : String → String) (random : String) (names : List String) (now : Time) (by : String)
    (body : TokenBody) (t : Table)
    → IsAnswer
        (body_allowed names body
          && not (has_name (name_of body.name) t.rows)
          && not (has_hash (digest (joined token_prefix random)) t.rows))
        t
        (create_token digest random names now by body t)
unfolding create_token
create_token-IsAnswer digest random names now by body t =
    let token = joined token_prefix random in
    insert_checked-IsAnswer now token (name_of body.name) (digest token)
      (new_token digest token names now by body) t (body_allowed names body)
      (new_token-is_accepted digest token names now by body)
      (new_token-Fits digest token names now by body)

-- A request for a token is accepted exactly when its fields follow the rules, no token has its name
-- and none has its hash.
pub create_token-accepts :
    (digest : String → String) (random : String) (names : List String) (now : Time) (by : String)
    (body : TokenBody) (t : Table)
    → is_accepted (create_token digest random names now by body t).0 ≡ (
        body_allowed names body
        && not (has_name (name_of body.name) t.rows)
        && not (has_hash (digest (joined token_prefix random)) t.rows))
create_token-accepts digest random names now by body t =
    (create_token-IsAnswer digest random names now by body t).0

-- A request for a token that is refused leaves the table as it was.
pub create_token-refused :
    (digest : String → String) (random : String) (names : List String) (now : Time) (by : String)
    (body : TokenBody) (t : Table)
    → is_accepted (create_token digest random names now by body t).0 ≡ false
    → (create_token digest random names now by body t).1 ≡ t
create_token-refused digest random names now by body t h =
    (create_token-IsAnswer digest random names now by body t).1
      (sym (create_token-IsAnswer digest random names now by body t).0 ∙ h)
