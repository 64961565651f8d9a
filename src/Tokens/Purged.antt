-- ===== src/Tokens/Purged.antt =====
-- What `purge` deletes, and revoking twice.
use nautobot_maps.Prelude.{
  ℕ, ◌*◌, ◌≡◌, refl, ap, Bool, true, false, not, List, [], ◌∷◌, map, none, some, String, leb, arith,
  if◌then◌else◌, filter, all,
}
use nautobot_maps.Availability.Interval.{Time}
use nautobot_maps.Planned.Request.{Field, absent}
use nautobot_maps.Tokens.Table.{
  Token, Table, is_inactive, inactive, can_revoke, revoked_row, revoke_row,
}
use nautobot_maps.Tokens.Service.{
  token_state, Checked, checked, refused, purge, purge_checked, read_older_than, revoke, day,
}
use nautobot_maps.Tokens.Verified.{is_active}

active_of_kept :
    (now older : Time) (l : List Token)
    → filter (λ r. is_active (token_state r now)) (filter (λ r. not (is_inactive now older r)) l)
      ≡ filter (λ r. is_active (token_state r now)) l
unfolding is_inactive token_state
active_of_kept now older [] = refl
active_of_kept now older (r ∷ l) = ground (arith, active_of_kept now older l)

active_of_purged :
    (dry_run : Bool) (now : Time) (c : Checked ℕ) (t : Table)
    → filter (λ r. is_active (token_state r now)) (purge_checked dry_run now c t).1.rows
      ≡ filter (λ r. is_active (token_state r now)) t.rows
unfolding inactive
active_of_purged dry_run now (refused e) t = refl
active_of_purged true now (checked days) t = refl
active_of_purged false now (checked days) t = active_of_kept now (days * day) t.rows

-- `purge` deletes no active token, whatever it is asked.
pub purge-keeps_active :
    (older : Field) (dry_run : Bool) (now : Time) (t : Table)
    → filter (λ r. is_active (token_state r now)) (purge older dry_run now t).1.rows
      ≡ filter (λ r. is_active (token_state r now)) t.rows
unfolding purge
purge-keeps_active older dry_run now t = active_of_purged dry_run now (read_older_than older) t

-- No token was revoked after the time.
abbrev pub revoked_by_now : Time → Token → Bool
revoked_by_now now r = elim r.revoked_at [ none ↦ true | some at ↦ leb at now ]

kept_are_active :
    (now : Time) (l : List Token)
    → all (revoked_by_now now) l ≡ true
    → filter (λ r. not (is_inactive now (0 * day) r)) l
      ≡ filter (λ r. is_active (token_state r now)) l
unfolding is_inactive token_state
kept_are_active now [] h = refl
kept_are_active now (r ∷ l) h = ground (arith, kept_are_active now l)

-- Where no token is revoked later than now, `purge` without an age leaves exactly the active ones.
pub purge_exact :
    (now : Time) (t : Table)
    → all (revoked_by_now now) t.rows ≡ true
    → (purge absent false now t).1.rows ≡ filter (λ r. is_active (token_state r now)) t.rows
unfolding purge read_older_than inactive
purge_exact now t h = kept_are_active now t.rows h

unchanged_again :
    (id : ℕ) (now later : Time) (by other : String) (l : List Token)
    → map
        (λ r. if can_revoke id r then revoked_row later other r else r)
        (map (λ r. if can_revoke id r then revoked_row now by r else r) l)
      ≡ map (λ r. if can_revoke id r then revoked_row now by r else r) l
unchanged_again id now later by other [] = refl
unchanged_again id now later by other (r ∷ l) =
    ground (arith, unchanged_again id now later by other l)

-- Revoking a token once more, later or by another, changes nothing: its first revocation is kept.
pub revoke_again :
    (id : ℕ) (now later : Time) (by other : String) (t : Table)
    → (revoke id later other (revoke id now by t).1).1 ≡ (revoke id now by t).1
unfolding revoke revoke_row
revoke_again id now later by other t =
    ap (λ l. record t { rows = l }) (unchanged_again id now later by other t.rows)
