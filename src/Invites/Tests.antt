-- ===== src/Invites/Tests.antt =====
-- One invite, minted, validated, claimed and revoked.
use th_layer_agent.Common.{
  leb, String, true, none, some, List, [], ◌∷◌, ◌==◌, ◌≡◌, ◌≢◌, refl, sym, ◌∙◌, if◌then◌else◌,
  is_some, false,
}
use th_layer_agent.Sql.{fetchone, rowcount, update}
use th_layer_agent.Invites.{
  Invite, Host, Claims, payload, invalid_token, MintRequest, get_by_id, minted_row, mint_invite,
  validate_invite_jwt, claim_write, claim_invite, revoke_write, revoke_invite, list_invites, status,
}
use th_layer_agent.Invites.SingleUse.{claim, revoke, steps, claim_write-once, revoke_write-blocks}
use th_layer_agent.Invites.Validated.{IsStable, claim_invite-validated}

abbrev sent : Claims
sent = record {
  sub = "ann@acme.io";
  role = "user";
  target_l2_id = some "acme/b";
  iat = 0;
  exp = 50;
  jti = "j1";
}

abbrev host : Host
host = record {
  fromisoformat = λ s. if s == "t0" then some 0 else some 9000000000;
  isoformat = λ t. if leb 1000 t then "t9" else "t0";
  encode_jwt = λ claims. claims.jti;
  decode_jwt = λ token now. if token == "j1" then payload sent else invalid_token;
  ttl_hours_env = none;
}

payload_inj : {a b : Claims} → payload a ≡ payload b → a ≡ b
payload_inj e = cc

stable :
    (token : String) (a b : Claims)
    → host.decode_jwt token 0 ≡ payload a
    → host.decode_jwt token 0 ≡ payload b
    → a ≡ b
stable token a b e f = payload_inj (sym e ∙ f)

host-IsStable : IsStable host
host-IsStable = record { same_claims = λ token now later a b e f. stable token a b e f }

abbrev asked : MintRequest
asked = record {
  email = "ann@acme.io";
  role = "user";
  target_l2_id = some "acme/b";
  issued_by = 1;
  ttl_hours = some 3;
}

abbrev rows : List Invite
rows = (mint_invite host asked 0 "j1" 1 []).1

abbrev row : Invite
row = minted_row host asked 0 "j1" 1

run : Unit {0}
unfolding mint_invite minted_row validate_invite_jwt claim_invite claim_write revoke_invite
    revoke_write steps fetchone rowcount update list_invites get_by_id
run = tt

-- A group's invite without a group is refused.
mint_invite-no_target :
    (mint_invite host (record asked { target_l2_id = none }) 0 "j2" 2 rows).0 ≡ none
unfolding run
mint_invite-no_target = refl

claimed_once : (claim_write host row 7 1 rows).0.kind ≡ "ok"
unfolding run
claimed_once = refl

-- The same token again is refused as claimed.
claim_invite-twice :
    (claim_invite host "j1" 8 2 3 (claim_write host row 7 1 rows).1).0.kind ≡ "already_claimed"
unfolding run
claim_invite-twice = refl

claim_write-once_example :
    (claim_write host row 8 9
      (steps host (revoke 1 5 ∷ claim row 9 6 ∷ []) (claim_write host row 7 1 rows).1)).0.kind
    ≢ "ok"
claim_write-once_example =
    claim_write-once host row row 7 1 8 9 rows (revoke 1 5 ∷ claim row 9 6 ∷ []) claimed_once refl

there : is_some (get_by_id host 1 rows) ≡ true
unfolding run
there = refl

id : row.id ≡ 1
unfolding run
id = refl

revoke_write-blocks_example :
    (claim_write host row 8 9
      (steps host (claim row 9 6 ∷ []) (revoke_write host 1 5 rows).1)).0.kind
    ≢ "ok"
revoke_write-blocks_example =
    revoke_write-blocks host 1 5 row 8 9 rows (claim row 9 6 ∷ []) there id

validated : validate_invite_jwt host "j1" 1 rows ≡ some row
unfolding run
validated = refl

unexpired : (status host 2 row == "expired") ≡ false
unfolding run status
unexpired = refl

claim_invite-validated_example :
    ((claim_invite host "j1" 7 2 3 rows).0.kind ≡ "ok")
    × (validate_invite_jwt host "j1" 4 (claim_invite host "j1" 7 2 3 rows).1 ≡ none)
claim_invite-validated_example =
    claim_invite-validated host host-IsStable "j1" 7 1 2 3 4 rows row sent validated refl unexpired

abbrev revoked_first : Invite
revoked_first = record row { revoked_at = some "t0" }

revoked : (revoke_invite host 1 5 rows).0 ≡ some revoked_first
unfolding run
revoked = refl
