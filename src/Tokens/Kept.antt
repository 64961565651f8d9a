-- ===== src/Tokens/Kept.antt =====
-- What the operations on tokens keep, over any sequence of them.
use nautobot_maps.Prelude.{
  ℕ, ◌+◌, ◌*◌, ◌<◌, ◌≡◌, refl, ap, ◌∙◌, Bool, true, false, not, ◌&&◌, ◌||◌, List, [], ◌∷◌, ◌++◌,
  map, Option, none, some, String, ltb, ◌==◌, arith, if◌then◌else◌, filter, any, all,
}
use nautobot_maps.Availability.Interval.{Time}
use nautobot_maps.Planned.Request.{Field}
use nautobot_maps.Tokens.Table.{
  Token, Table, Inserted, has_name, has_hash, insert_token, is_set, is_inactive, inactive,
  can_revoke, revoked_row, revoke_row, find_active, touch, is_stale,
}
use nautobot_maps.Tokens.Service.{
  token_state, Checked, checked, refused, TokenBody, new_token, insert_checked, answer_insert,
  create_token, purge, purge_checked, read_older_than, revoke, answer_found, verify, is_token, day,
  Access, last_used_interval,
}
use nautobot_maps.Tokens.Verified.{is_active}

-- One call.
pub data Step (digest : String → String) (t : Table) (u : Table) : Type 0 where
  creates :
      (random : String) (names : List String) (now : Time) (by : String) (body : TokenBody)
      → u ≡ (create_token digest random names now by body t).1
      → Step digest t u
  purges :
      (older : Field) (dry_run : Bool) (now : Time)
      → u ≡ (purge older dry_run now t).1
      → Step digest t u
  revokes : (id : ℕ) (now : Time) (by : String) → u ≡ (revoke id now by t).1 → Step digest t u
  verifies : (token : String) (now : Time) → u ≡ (verify digest token now t).1 → Step digest t u

-- Any number of calls.
pub data Reaches (digest : String → String) (t : Table) : Table → Type 0 where
  here : Reaches digest t t
  next : {u v : Table} → Reaches digest t u → Step digest u v → Reaches digest t v

-- The id was given to a token, and each row that has it is revoked.
abbrev pub is_revoked_id : ℕ → Table → Bool
is_revoked_id id t = ltb id t.next_id && all (λ r. not (r.id == id) || is_set r.revoked_at) t.rows

all-append :
    (p : Token → Bool) (l : List Token) (r : Token) → all p (l ++ (r ∷ [])) ≡ (all p l && p r)
all-append p [] r = ground arith
all-append p (u ∷ l) r = ground (arith, all-append p l r)

all-filter : (p q : Token → Bool) (l : List Token) → all p l ≡ true → all p (filter q l) ≡ true
all-filter p q [] h = refl
all-filter p q (r ∷ l) h = ground (arith, all-filter p q l)

all-map :
    (p : Token → Bool) (f : Token → Token) (l : List Token)
    → ((r : Token) → p r ≡ true → p (f r) ≡ true)
    → all p l ≡ true
    → all p (map f l) ≡ true
all-map p f [] h k = refl
all-map p f (r ∷ l) h k = ground (arith, h r, all-map p f l h)

module _ (id : ℕ) where
  revoked_id-insert :
      (now : Time) (token : String) (values : Token) (t : Table)
      → is_revoked_id id t ≡ true
      → is_revoked_id id (answer_insert now token (insert_token values t)).1 ≡ true
  unfolding insert_token
  revoked_id-insert now token values t h =
      by_conflict (has_name values.name t.rows) (has_hash values.token_hash t.rows)
    where
      row : Token
      row = record values { id = t.next_id }

      by_conflict :
          (b d : Bool)
          → is_revoked_id id
              (answer_insert now token (
                if◌then◌else◌ {A = Inserted × Table} b
                  (Inserted.name_conflict, t)
                  (if◌then◌else◌ {A = Inserted × Table} d
                    (Inserted.hash_conflict, t)
                    (
                      Inserted.inserted_row row,
                      record { rows = t.rows ++ (row ∷ []); next_id = t.next_id + 1 },
                    )))).1
            ≡ true
      by_conflict true d = h
      by_conflict false true = h
      by_conflict false false =
          ground (arith, all-append (λ r. not (r.id == id) || is_set r.revoked_at) t.rows row)

  revoked_id-create :
      (now : Time) (token : String) (v : Checked Token) (t : Table)
      → is_revoked_id id t ≡ true
      → is_revoked_id id (insert_checked now token v t).1 ≡ true
  revoked_id-create now token (refused e) t h = h
  revoked_id-create now token (checked values) t h = revoked_id-insert now token values t h

  revoked_id-purge :
      (dry_run : Bool) (now : Time) (c : Checked ℕ) (t : Table)
      → is_revoked_id id t ≡ true
      → is_revoked_id id (purge_checked dry_run now c t).1 ≡ true
  unfolding inactive
  revoked_id-purge dry_run now (refused e) t h = h
  revoked_id-purge true now (checked days) t h = h
  revoked_id-purge false now (checked days) t h = ground (
    arith,
    all-filter (λ r. not (r.id == id) || is_set r.revoked_at)
        (λ r. not (is_inactive now (days * day) r)) t.rows,
  )

  revoked_id-map :
      (f : Token → Token) (t : Table)
      → ((r : Token) → (f r).id ≡ r.id)
      → ((r : Token) → is_set r.revoked_at ≡ true → is_set (f r).revoked_at ≡ true)
      → is_revoked_id id t ≡ true
      → is_revoked_id id (record t { rows = map f t.rows }) ≡ true
  revoked_id-map f t same keeps h = ground (
    arith,
    all-map (λ r. not (r.id == id) || is_set r.revoked_at) f t.rows
        (λ r k. ground (arith, same r, keeps r)),
  )

  revoked_id-revoke :
      (n : ℕ) (now : Time) (by : String) (t : Table)
      → is_revoked_id id t ≡ true
      → is_revoked_id id (revoke n now by t).1 ≡ true
  unfolding revoke revoke_row
  revoked_id-revoke n now by t h =
      revoked_id-map (λ r. if can_revoke n r then revoked_row now by r else r) t (λ r. ground arith)
        (λ r k. ground arith) h

  revoked_id-touch :
      (n : ℕ) (now : Time) (t : Table)
      → is_revoked_id id t ≡ true
      → is_revoked_id id (touch n now last_used_interval t) ≡ true
  unfolding touch
  revoked_id-touch n now t h =
      revoked_id-map
        (λ r.
          if r.id == n && is_stale now last_used_interval r
          then record r { last_used_at = some now }
          else r)
        t (λ r. ground arith) (λ r k. ground arith) h

  revoked_id-found :
      (now : Time) (o : Option Token) (t : Table)
      → is_revoked_id id t ≡ true
      → is_revoked_id id (answer_found now o t).1 ≡ true
  revoked_id-found now none t h = h
  revoked_id-found now (some r) t h = by_stale (is_stale now last_used_interval r)
    where
      by_stale :
          (b : Bool)
          → is_revoked_id id (if b then touch r.id now last_used_interval t else t) ≡ true
      by_stale true = revoked_id-touch r.id now t h
      by_stale false = h

  revoked_id-verify :
      (digest : String → String) (token : String) (now : Time) (t : Table)
      → is_revoked_id id t ≡ true
      → is_revoked_id id (verify digest token now t).1 ≡ true
  unfolding verify
  revoked_id-verify digest token now t h = by_shape (is_token token)
    where
      by_shape :
          (b : Bool)
          → is_revoked_id id
              (if◌then◌else◌ {A = Option Access × Table} b
                (answer_found now (find_active (digest token) now t) t)
                (none, t)).1
            ≡ true
      by_shape true = revoked_id-found now (find_active (digest token) now t) t h
      by_shape false = h

  Step-is_revoked_id :
      (digest : String → String) (t u : Table)
      → Step digest t u
      → is_revoked_id id t ≡ true
      → is_revoked_id id u ≡ true
  unfolding create_token purge
  Step-is_revoked_id digest t u (creates random names now by body e) h =
      ap (is_revoked_id id) e ∙ revoked_id-create now _ (new_token digest _ names now by body) t h
  Step-is_revoked_id digest t u (purges older dry_run now e) h =
      ap (is_revoked_id id) e ∙ revoked_id-purge dry_run now (read_older_than older) t h
  Step-is_revoked_id digest t u (revokes n now by e) h =
      ap (is_revoked_id id) e ∙ revoked_id-revoke n now by t h
  Step-is_revoked_id digest t u (verifies token now e) h =
      ap (is_revoked_id id) e ∙ revoked_id-verify digest token now t h

  Reaches-is_revoked_id :
      (digest : String → String) (t : Table) {u : Table}
      → Reaches digest t u
      → is_revoked_id id t ≡ true
      → is_revoked_id id u ≡ true
  Reaches-is_revoked_id digest t here h = h
  Reaches-is_revoked_id digest t (next {u = u} {v = v} path s) h =
      Step-is_revoked_id digest u v s (Reaches-is_revoked_id digest t path h)

now_revoked :
    (id : ℕ) (now : Time) (by : String) (l : List Token)
    → all
        (λ r. not (r.id == id) || is_set r.revoked_at)
        (map (λ r. if can_revoke id r then revoked_row now by r else r) l)
      ≡ true
now_revoked id now by [] = refl
now_revoked id now by (r ∷ l) = ground (arith, now_revoked id now by l)

never_active :
    (id : ℕ) (later : Time) (l : List Token)
    → all (λ r. not (r.id == id) || is_set r.revoked_at) l ≡ true
    → any (λ r. r.id == id && is_active (token_state r later)) l ≡ false
unfolding token_state
never_active id later [] h = refl
never_active id later (r ∷ l) h = ground (arith, never_active id later l)

-- Once the token with an id that was given is revoked, whatever calls follow, no row has the id and is
-- active, at any time.
pub revoke-never_active :
    (digest : String → String) (id : ℕ) (now later : Time) (by : String) (t u : Table)
    → id < t.next_id
    → Reaches digest (revoke id now by t).1 u
    → any (λ r. r.id == id && is_active (token_state r later)) u.rows ≡ false
unfolding revoke revoke_row
revoke-never_active digest id now later by t u h path = never_active id later u.rows (
    ground (
      arith,
      Reaches-is_revoked_id id digest (revoke id now by t).1 path
          (ground (arith, now_revoked id now by t.rows)),
    ))
