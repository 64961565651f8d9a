-- ===== src/Tests/Tokens.antt =====
-- The theorems on tokens at a table with two of them, one expired.
use nautobot_maps.Prelude.{
  ◌≡◌, refl, false, not, ◌&&◌, [], ◌∷◌, any, none, some, String, ◌==◌, arith, filter,
}
use nautobot_maps.Text.{joined, stripped, count_characters, first_characters}
use nautobot_maps.Planned.Request.{absent, string, whole}
use nautobot_maps.Tokens.Table.{Role, Token, Table, same_letters, has_name, has_hash}
use nautobot_maps.Tokens.Service.{
  Created, TokenBody, create_token, verify, access_of, token_prefix, token_state, active, checked,
  purge, revoke,
}
use nautobot_maps.Tokens.Verified.{is_active, verify-create_token}
use nautobot_maps.Tokens.Kept.{Reaches, here, next, verifies, revoke-never_active}
use nautobot_maps.Tokens.Purged.{purge-keeps_active}
use nautobot_maps.Tokens.Requested.{create_token-accepts}
use nautobot_maps.Tokens.Fields.{is_accepted, body_allowed, name_of}

abbrev digest : String → String
digest s = s

abbrev script : Token
script = record {
  id = 1;
  name = "script";
  token_hash = "nmt_abc";
  prefix = "nmt_abc";
  role = Role.viewer;
  tenant = none;
  created_by = "ann";
  created_at = 1_000_000;
  expires_at = none;
  last_used_at = none;
  revoked_at = none;
  revoked_by = "";
}

abbrev old : Token
old = record script {
  id = 2;
  name = "old";
  token_hash = "nmt_old";
  prefix = "nmt_old";
  expires_at = some 5_000_000;
}

abbrev two_tokens : Table
two_tokens = record { rows = script ∷ old ∷ []; next_id = 3 }

abbrev for_tenant : TokenBody
for_tenant = record {
  name = string " page ";
  role = string "status";
  tenant = string "acme";
  expires_in_days = whole 1;
}

abbrev unnamed : TokenBody
unnamed = record for_tenant { name = absent }

abbrev page : Token
page = record {
  id = 3;
  name = "page";
  token_hash = "";
  prefix = "nmt_xyz";
  role = Role.status;
  tenant = some "ACME";
  created_by = "ann";
  created_at = 9_000_000;
  expires_at = some 86_409_000_000;
  last_used_at = none;
  revoked_at = none;
  revoked_by = "";
}

abbrev created_page : Created
created_page = record { row = page; state = active; token = "nmt_xyz" }

create_page :
    (create_token digest "xyz" ("ACME" ∷ []) 9_000_000 "ann" for_tenant two_tokens).0
    ≡ checked created_page
unfolding create_token stripped count_characters same_letters first_characters token_state
create_page = refl

verify-create_token_example :
    (verify digest "nmt_xyz" 10_000_000
      (create_token digest "xyz" ("ACME" ∷ []) 9_000_000 "ann" for_tenant two_tokens).1).0
    ≡ some (access_of page)
verify-create_token_example =
    verify-create_token digest "xyz" ("ACME" ∷ []) 9_000_000 10_000_000 "ann" for_tenant two_tokens
      created_page refl create_page refl

used_again :
    Reaches digest
      (revoke 1 2_000_000 "bob" two_tokens).1
      (verify digest "nmt_abc" 3_000_000 (revoke 1 2_000_000 "bob" two_tokens).1).1
used_again = next here (verifies "nmt_abc" 3_000_000 refl)

revoke-never_active_example :
    any
      (λ r. r.id == 1 && is_active (token_state r 4_000_000))
      (verify digest "nmt_abc" 3_000_000 (revoke 1 2_000_000 "bob" two_tokens).1).1.rows
    ≡ false
revoke-never_active_example =
    revoke-never_active digest 1 2_000_000 4_000_000 "bob" two_tokens
      (verify digest "nmt_abc" 3_000_000 (revoke 1 2_000_000 "bob" two_tokens).1).1 (ground arith)
      used_again

purge-keeps_active_example :
    filter
      (λ r. is_active (token_state r 6_000_000))
      (purge absent false 6_000_000 two_tokens).1.rows
    ≡ filter (λ r. is_active (token_state r 6_000_000)) two_tokens.rows
purge-keeps_active_example = purge-keeps_active absent false 6_000_000 two_tokens

create_token-accepts_example :
    is_accepted (create_token digest "abc" ("ACME" ∷ []) 9_000_000 "ann" for_tenant two_tokens).0
    ≡ (body_allowed ("ACME" ∷ []) for_tenant
        && not (has_name (name_of for_tenant.name) two_tokens.rows)
        && not (has_hash (digest (joined token_prefix "abc")) two_tokens.rows))
create_token-accepts_example =
    create_token-accepts digest "abc" ("ACME" ∷ []) 9_000_000 "ann" for_tenant two_tokens

refused_unnamed :
    is_accepted (create_token digest "xyz" ("ACME" ∷ []) 9_000_000 "ann" unnamed two_tokens).0
    ≡ false
unfolding create_token
refused_unnamed = refl
