-- ===== src/Consent/Tests.antt =====
-- One grant through its life, with a signature that is the fixed text `sig`.
use th_layer_agent.Common.{
  ℕ, ◌≡◌, refl, String, Bool, true, false, List, [], ◌∷◌, Option, none, some, ◌==◌, str_append, All,
  if◌then◌else◌, nat_eq, ◌++◌, leb, ltb,
}
use th_layer_agent.Common.Exec.{ok, err}
use th_layer_agent.Sql.{fetchone, update, delete}
use th_layer_agent.Sql.Keys.{IsKeyed}
use th_layer_agent.Crypto.{verify_envelope_signature}
use th_layer_agent.Consent.{
  not_found, conflict, bad_request, invalid_signature, Stamp, GrantBody, BodyRequest, built_body,
  build_grant_body, Db, Host, verify_sig_over_body, Pending, by_key,
}
use th_layer_agent.Consent.Steps.{
  propose_grant, cosign_grant, cosigned_row, grant_row, pending_row, ratify_grant,
}
use th_layer_agent.Consent.Revoke.{Revocation, revoke_grant, revoked_row}
use th_layer_agent.Consent.Reads.{is_grant_usable}
use th_layer_agent.Consent.Signed.{
  ReadsBack, IsTwoOfTwo, Call, propose, cosign, ratify, calls, no_rows, grants-IsTwoOfTwo,
}
use th_layer_agent.Consent.Lifecycle.{ratify_grant-usable, revoke_grant-authorised}
use th_layer_agent.Consent.Authority.{Revoked}
use th_layer_agent.Consent.Sample.{canonical, loads, loads-canonical}
use th_layer_agent.Merkle.{Bytes}
use th_layer_agent.Consent.Bounds.{Bounded, build_grant_body-Bounded}

abbrev request : BodyRequest
request = record {
  enterprise_id = "acme";
  source_l2 = "acme/a";
  target_l2 = "acme/b";
  scope_kind = "all";
  scope_values = [];
  issued_at = "t0";
  expires_at = "t90";
  recovery_operator_pubkey_b64u = "rec";
  nonce_b64u = none;
  grant_id = none;
}

abbrev body : GrantBody
body = record {
  grant_id = "g1";
  enterprise_id = "acme";
  source_l2 = "acme/a";
  target_l2 = "acme/b";
  scope_kind = "all";
  scope_values = [];
  issued_at = "t0";
  expires_at = "t90";
  nonce = "n1";
  version = "v1";
  recovery_operator_pubkey_b64u = "rec";
}

-- the second 0 and the day 90
abbrev clock : String → Option Stamp
clock s =
    if s == "t0"
    then some (record { instant = 0; aware = true })
    else some (record { instant = 7776000000000; aware = true })

abbrev is_sig : Bytes → Bool
is_sig [] = false
is_sig (b ∷ bytes) = true

abbrev host : Host
host = record {
  fromisoformat = clock;
  isoformat = λ t. if nat_eq t 0 then "t0" else "t7";
  canonicalize = canonical;
  canonicalize_revoke = λ e. str_append e.grant_id e.revoke_ts;
  loads = loads;
  dumps_values = λ values. "[]";
  sha256_hex = λ bytes. "00";
  ed25519 = record {
    urlsafe_b64decode = λ s. if s == "sig=" then some (1 ∷ []) else some [];
    from_public_bytes = λ raw. some raw;
    verify = λ pub_key signature message. is_sig signature;
    encode = λ s. [];
  };
}

host-ReadsBack : ReadsBack host
host-ReadsBack = record { loads-canonicalize = loads-canonical }

abbrev steps : List Call
steps =
    propose
      (record {
        body = body;
        proposer_l2 = "acme/a";
        proposer_pubkey_b64u = "ka";
        proposer_signature_b64u = "sig";
        window_days = 7;
      })
      0 "p1"
    ∷ cosign
        (record {
          pending_id = "p1";
          cosigner_l2 = "acme/b";
          cosigner_pubkey_b64u = "kb";
          cosigner_signature_b64u = "sig";
        })
        1
    ∷ []

abbrev cosigned_db : Db
cosigned_db = calls host steps no_rows

run : Unit {0}
unfolding verify_sig_over_body propose_grant cosign_grant ratify_grant revoke_grant calls fetchone
    update delete cosigned_row grant_row pending_row revoked_row is_grant_usable build_grant_body
    built_body canonical loads verify_envelope_signature
run = tt

ratified : (ratify_grant host "p1" 2 cosigned_db).0 ≡ ok "g1"
unfolding run
ratified = refl

-- The proposer cannot be the cosigner.
cosign_grant-proposer :
    (cosign_grant host
      (record {
        pending_id = "p1";
        cosigner_l2 = "acme/a";
        cosigner_pubkey_b64u = "ka";
        cosigner_signature_b64u = "sig";
      })
      1
      (calls host
        (propose
            (record {
              body = body;
              proposer_l2 = "acme/a";
              proposer_pubkey_b64u = "ka";
              proposer_signature_b64u = "sig";
              window_days = 7;
            })
            0
            "p1"
          ∷ [])
        no_rows)).0
    ≡ err bad_request
unfolding run
cosign_grant-proposer = refl

-- A cosignature that does not verify is refused.
cosign_grant-forged :
    (cosign_grant host
      (record {
        pending_id = "p1";
        cosigner_l2 = "acme/b";
        cosigner_pubkey_b64u = "kb";
        cosigner_signature_b64u = "gis";
      })
      1
      (calls host
        (propose
            (record {
              body = body;
              proposer_l2 = "acme/a";
              proposer_pubkey_b64u = "ka";
              proposer_signature_b64u = "sig";
              window_days = 7;
            })
            0
            "p1"
          ∷ [])
        no_rows)).0
    ≡ err invalid_signature
unfolding run
cosign_grant-forged = refl

grants-IsTwoOfTwo_example :
    All (IsTwoOfTwo host) (calls host (ratify "p1" 2 ∷ []) (calls host steps no_rows)).grants
    × IsKeyed (λ g. g.grant_id) (calls host (ratify "p1" 2 ∷ []) (calls host steps no_rows)).grants
unfolding run
grants-IsTwoOfTwo_example = grants-IsTwoOfTwo host host-ReadsBack (steps ++ ratify "p1" 2 ∷ [])

ratify_grant-usable_example :
    (row : Pending) × (body : GrantBody) × (expires : Stamp) × (fetchone
        (by_key (λ r. r.pending_id) "p1")
        cosigned_db.pending
      ≡ some row)
    × (host.loads row.body_canonical ≡ some body)
    × (host.fromisoformat body.expires_at ≡ some expires)
    × (leb expires.instant 2 ≡ false)
    × ((later : ℕ)
        → is_grant_usable host "g1" later (ratify_grant host "p1" 2 cosigned_db).1
          ≡ (ok (ltb later expires.instant), (ratify_grant host "p1" 2 cosigned_db).1))
    × ((later : ℕ)
        → ratify_grant host "p1" later (ratify_grant host "p1" 2 cosigned_db).1
          ≡ (err not_found, (ratify_grant host "p1" 2 cosigned_db).1))
ratify_grant-usable_example = ratify_grant-usable host "p1" "g1" 2 cosigned_db ratified

abbrev ratified_db : Db
ratified_db = (ratify_grant host "p1" 2 cosigned_db).1

abbrev recovery_revocation : Revocation
recovery_revocation = record {
  grant_id = "g1";
  revoker_pubkey_b64u = "rec";
  revoker_signature_b64u = "sig";
  revoker_l2 = none;
  reason = some "lost key";
  revoke_ts = "t7";
  is_recovery = true;
  key_lineage_walker = none;
}

-- The recovery key without its flag is refused.
revoke_grant-unflagged :
    (revoke_grant host (record recovery_revocation { is_recovery = false }) 3 ratified_db).0
    ≡ err bad_request
unfolding run
revoke_grant-unflagged = refl

revoked : (revoke_grant host recovery_revocation 3 ratified_db).0 ≡ ok true
unfolding run
revoked = refl

revoke_grant-authorised_example :
    Revoked host recovery_revocation 3 true ratified_db
      (revoke_grant host recovery_revocation 3 ratified_db).1
    × ((later : ℕ)
        → is_grant_usable host "g1" later (revoke_grant host recovery_revocation 3 ratified_db).1
          ≡ (ok false, (revoke_grant host recovery_revocation 3 ratified_db).1))
    × ((again : Revocation) (later : ℕ)
        → again.grant_id ≡ "g1"
        → revoke_grant host again later (revoke_grant host recovery_revocation 3 ratified_db).1
          ≡ (err conflict, (revoke_grant host recovery_revocation 3 ratified_db).1))
revoke_grant-authorised_example =
    revoke_grant-authorised host recovery_revocation 3 true ratified_db revoked

built : build_grant_body host request "g1" "n1" tt ≡ (ok body, tt)
unfolding run
built = refl

build_grant_body-Bounded_example : Bounded host body
build_grant_body-Bounded_example = build_grant_body-Bounded host request "g1" "n1" body built
