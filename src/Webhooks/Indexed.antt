-- ===== src/Webhooks/Indexed.antt =====
-- What `read_index` finds for a host: the alert that started first.
use nautobot_maps.Prelude.{
  any-sort_by, ◌≡◌, refl, ap, ◌∙◌, Bool, true, false, not, ◌&&◌, List, [], ◌∷◌, ◌++◌, Option, none,
  some, leb, ltb, arith, filter, any, all, sort_by, insert_by,
}
use nautobot_maps.Text.{Text, text_eq, is_empty, lookup_text, text_eq_sound}
use nautobot_maps.Availability.Interval.{Time}
use nautobot_maps.Webhooks.Table.{
  Row, Store, is_current, starts_first, Found, found_of, Index, set_default, keys_of, index_rows,
  read_index, or_found,
}

found_if : Bool → Found → Option Found
found_if true a = some a
found_if false a = none

lookup-append :
    (h k : Text) (a : Found) (d : List (Text × Found))
    → lookup_text h (d ++ ((k, a) ∷ [])) ≡ or_found (lookup_text h d) (found_if (text_eq h k) a)
unfolding found_if
lookup-append h k a [] = ground arith
lookup-append h k a (e ∷ d) = ground (arith, lookup-append h k a d)

or_none : (o : Option Found) → o ≡ or_found o none
or_none none = refl
or_none (some a) = refl

already :
    (h k : Text) (a b : Found) (d : List (Text × Found))
    → lookup_text k d ≡ some b
    → lookup_text h d ≡ or_found (lookup_text h d) (found_if (text_eq h k) a)
unfolding found_if
already h k a b d e = by_test (text_eq h k) refl
  where
    by_test :
        (c : Bool) → text_eq h k ≡ c → lookup_text h d ≡ or_found (lookup_text h d) (found_if c a)
    by_test false f = or_none (lookup_text h d)
    by_test true f = rw (ap (λ s. lookup_text s d) (text_eq_sound h k f) ∙ e) refl

lookup-set_default :
    (h k : Text) (a : Found) (d : List (Text × Found))
    → lookup_text h (set_default k a d)
      ≡ or_found (lookup_text h d) (found_if (not (is_empty k) && text_eq h k) a)
unfolding found_if
lookup-set_default h [] a d = or_none (lookup_text h d)
lookup-set_default h (c ∷ k) a d = by_lookup (lookup_text (c ∷ k) d) refl
  where
    by_lookup :
        (o : Option Found)
        → lookup_text (c ∷ k) d ≡ o
        → lookup_text h (elim o [ some b ↦ d | none ↦ d ++ ((c ∷ k, a) ∷ []) ])
          ≡ or_found (lookup_text h d) (found_if (text_eq h (c ∷ k)) a)
    by_lookup none e = lookup-append h (c ∷ k) a d
    by_lookup (some b) e = already h (c ∷ k) a b d e

or_found_assoc : (a b c : Option Found) → or_found (or_found a b) c ≡ or_found a (or_found b c)
or_found_assoc none b c = refl
or_found_assoc (some a) b c = refl

-- The alert started by the time.
abbrev pub is_by_then : Time → Option Found → Bool
is_by_then t none = false
is_by_then t (some a) = leb a.started_at t

is_ascending : List Row → Bool
is_ascending [] = true
is_ascending (r ∷ rows) = all (λ q. leb r.started_at q.started_at) rows && is_ascending rows

all-insert_by :
    (p : Row → Bool) (r : Row) (rows : List Row)
    → all p (insert_by starts_first r rows) ≡ (p r && all p rows)
all-insert_by p r [] = refl
all-insert_by p r (q ∷ rows) = ground (arith, all-insert_by p r rows)

later_all :
    (a b : Time) (rows : List Row)
    → leb a b ≡ true
    → all (λ q. leb b q.started_at) rows ≡ true
    → all (λ q. leb a q.started_at) rows ≡ true
later_all a b [] h k = refl
later_all a b (q ∷ rows) h k = ground (arith, later_all a b rows)

ascending-insert_by :
    (r : Row) (rows : List Row)
    → is_ascending rows ≡ true
    → is_ascending (insert_by starts_first r rows) ≡ true
unfolding is_ascending starts_first
ascending-insert_by r [] h = refl
ascending-insert_by r (q ∷ rows) h = ground (
  arith,
  ascending-insert_by r rows,
  all-insert_by (λ v. leb q.started_at v.started_at) r rows,
  later_all r.started_at q.started_at rows,
)

ascending-sort_by : (rows : List Row) → is_ascending (sort_by starts_first rows) ≡ true
unfolding is_ascending
ascending-sort_by [] = refl
ascending-sort_by (r ∷ rows) =
    ascending-insert_by r (sort_by starts_first rows) (ascending-sort_by rows)

any-filter :
    (p q : Row → Bool) (rows : List Row) → any p (filter q rows) ≡ any (λ r. q r && p r) rows
any-filter p q [] = refl
any-filter p q (r ∷ rows) = ground (arith, any-filter p q rows)

module _ (address : Text → Option Text) (host : Text) where
  -- The row is indexed under the host.
  abbrev pub is_of_host : Row → Bool
  is_of_host r =
      not (is_empty (keys_of address r.device_key).0)
      && text_eq host (keys_of address r.device_key).0

  first_found : List Row → Option Found
  first_found [] = none
  first_found (r ∷ rows) = or_found (found_if (is_of_host r) (found_of r)) (first_found rows)

  lookup-index_rows :
      (rows : List Row) (index : Index)
      → lookup_text host (index_rows address rows index).by_host
        ≡ or_found (lookup_text host index.by_host) (first_found rows)
  unfolding index_rows first_found
  lookup-index_rows [] index = or_none (lookup_text host index.by_host)
  lookup-index_rows (r ∷ rows) index =
      let key = (keys_of address r.device_key).0 in
      lookup-index_rows rows (record {
        by_host = set_default key (found_of r) index.by_host;
        by_ip = set_default (keys_of address r.device_key).1 (found_of r) index.by_ip;
      })
      ∙ ap (λ o. or_found o (first_found rows))
          (lookup-set_default host key (found_of r) index.by_host)
      ∙ or_found_assoc (lookup_text host index.by_host) (found_if (is_of_host r) (found_of r))
          (first_found rows)

  none_by :
      (t a : Time) (rows : List Row)
      → ltb t a ≡ true
      → all (λ q. leb a q.started_at) rows ≡ true
      → any (λ r. is_of_host r && leb r.started_at t) rows ≡ false
  none_by t a [] h k = refl
  none_by t a (q ∷ rows) h k = ground (arith, none_by t a rows)

  first_found-is_by_then :
      (t : Time) (rows : List Row)
      → is_ascending rows ≡ true
      → is_by_then t (first_found rows) ≡ any (λ r. is_of_host r && leb r.started_at t) rows
  unfolding first_found is_ascending found_if
  first_found-is_by_then t [] h = refl
  first_found-is_by_then t (r ∷ rows) h =
      ground (arith, first_found-is_by_then t rows, none_by t r.started_at rows)

-- For a host, the index has an alert that started by a time exactly when a row that has not expired is
-- for that host and started by then: of the alerts on a device it is the one that started first.
pub read_index-is_by_then :
    (address : Text → Option Text) (ttl now t : Time) (host : Text) (s : Store)
    → is_by_then t (lookup_text host (read_index address ttl now s).by_host)
      ≡ any (λ r. is_current ttl now r && (is_of_host address host r && leb r.started_at t)) s.rows
unfolding read_index
read_index-is_by_then address ttl now t host s =
    let current = filter (is_current ttl now) s.rows in
    ap (is_by_then t) (
      lookup-index_rows address host (sort_by starts_first current)
        (record { by_host = []; by_ip = [] }))
    ∙ first_found-is_by_then address host t (sort_by starts_first current)
        (ascending-sort_by current)
    ∙ any-sort_by starts_first (λ r. is_of_host address host r && leb r.started_at t) current
    ∙ any-filter (λ r. is_of_host address host r && leb r.started_at t) (is_current ttl now) s.rows
