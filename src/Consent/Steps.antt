-- ===== src/Consent/Steps.antt =====
-- xgroup_consent.py: propose, cosign and ratify, each as the checks on the row that it reads and the
-- statement that it issues.
use th_layer_agent.Common.{
  ℕ, ◌+◌, leb, String, Bool, false, not, ◌&&◌, ◌||◌, none, some, ◌==◌, is_some, is_none,
}
use th_layer_agent.Common.Exec.{Exec, pure, raise_if, some_or, get, put, ◌>>=◌, ◌>>◌}
use th_layer_agent.Sql.{fetchone, update, insert, delete}
use th_layer_agent.Sql.Keys.{by_key}
use th_layer_agent.Consent.{
  Error, conflict, invalid_signature, expired, bad_request, other_exception, GrantBody, Pending,
  Grant, Db, Host, days, parse_iso, body_sha256_hex, verify_sig_over_body, load_pending,
}

pub record Proposal : Type 0 where
  pub body : GrantBody
  pub proposer_l2 : String
  pub proposer_pubkey_b64u : String
  pub proposer_signature_b64u : String
  pub window_days : ℕ

pub record Cosignature : Type 0 where
  pub pending_id : String
  pub cosigner_l2 : String
  pub cosigner_pubkey_b64u : String
  pub cosigner_signature_b64u : String

module _ (host : Host) where
  -- the row that a proposal inserts
  unfoldable pub pending_row : Proposal → ℕ → String → Pending
  unfolding body_sha256_hex
  pending_row p now pending_id = record {
    pending_id = pending_id;
    enterprise_id = p.body.enterprise_id;
    source_l2 = p.body.source_l2;
    target_l2 = p.body.target_l2;
    body_canonical = host.canonicalize p.body;
    body_canonical_sha256_hex = body_sha256_hex host p.body;
    proposer_l2 = p.proposer_l2;
    proposer_pubkey_b64u = p.proposer_pubkey_b64u;
    proposer_signature_b64u = p.proposer_signature_b64u;
    cosigner_l2 = none;
    cosigner_pubkey_b64u = none;
    cosigner_signature_b64u = none;
    cosigned_at = none;
    proposed_at = host.isoformat now;
    expires_at = host.isoformat (now + days p.window_days);
    status = "proposed";
  }

  -- Returns the new row's id, which the handler was given as its random draw.
  unfoldable pub propose_grant : Proposal → ℕ → String → Exec Error Db String
  propose_grant p now pending_id = do
    raise_if (not (p.proposer_l2 == p.body.source_l2 || (p.proposer_l2 == p.body.target_l2)))
        bad_request
    raise_if (not (p.proposer_l2 == p.body.source_l2)) bad_request
    raise_if
        (not (verify_sig_over_body host p.proposer_pubkey_b64u p.body p.proposer_signature_b64u))
        invalid_signature
    db ← get
    raise_if (is_some (fetchone (by_key (λ r. r.pending_id) pending_id) db.pending)) other_exception
    put (record db { pending = insert (pending_row p now pending_id) db.pending })
    pure pending_id

  -- UPDATE ... WHERE pending_id = :pid AND status = 'proposed'
  abbrev pub is_open : String → Pending → Bool
  is_open pending_id r = (r.pending_id == pending_id) && (r.status == "proposed")

  unfoldable pub cosigned_row : Cosignature → ℕ → Pending → Pending
  cosigned_row c now r = record r {
    cosigner_l2 = some c.cosigner_l2;
    cosigner_pubkey_b64u = some c.cosigner_pubkey_b64u;
    cosigner_signature_b64u = some c.cosigner_signature_b64u;
    cosigned_at = some (host.isoformat now);
    status = "cosigned";
  }

  unfoldable pub cosign_grant : Cosignature → ℕ → Exec Error Db String
  unfolding load_pending parse_iso
  cosign_grant c now = do
    row ← load_pending host c.pending_id
    raise_if (not (row.status == "proposed")) conflict
    expires ← parse_iso host row.expires_at
    raise_if (leb expires now) expired
    raise_if (c.cosigner_l2 == row.proposer_l2) bad_request
    raise_if (not (c.cosigner_l2 == row.target_l2)) bad_request
    body ← some_or (host.loads row.body_canonical) other_exception
    raise_if (not (verify_sig_over_body host c.cosigner_pubkey_b64u body c.cosigner_signature_b64u))
        invalid_signature
    db ← get
    put (record db { pending = update (is_open c.pending_id) (cosigned_row c now) db.pending })
    pure c.pending_id

  -- the row that a ratification inserts
  unfoldable pub grant_row : Pending → GrantBody → String → String → ℕ → Grant
  grant_row row body cosigner_pubkey cosigner_signature now = record {
    grant_id = body.grant_id;
    enterprise_id = body.enterprise_id;
    source_l2 = body.source_l2;
    target_l2 = body.target_l2;
    body_canonical = row.body_canonical;
    body_canonical_sha256_hex = row.body_canonical_sha256_hex;
    scope_kind = body.scope_kind;
    scope_values_json = host.dumps_values body.scope_values;
    signer_a_l2 = row.proposer_l2;
    signer_a_pubkey_b64u = row.proposer_pubkey_b64u;
    signer_a_signature_b64u = row.proposer_signature_b64u;
    signer_b_l2 = row.cosigner_l2;
    signer_b_pubkey_b64u = cosigner_pubkey;
    signer_b_signature_b64u = cosigner_signature;
    recovery_operator_pubkey_b64u = body.recovery_operator_pubkey_b64u;
    issued_at = body.issued_at;
    expires_at = body.expires_at;
    ratified_at = host.isoformat now;
    status = "active";
    revoked_at = none;
    revoked_by_l2 = none;
    revoked_by_pubkey_b64u = none;
    revoked_by_recovery = false;
    revoke_reason = none;
    nonce_b64u = body.nonce;
    version = body.version;
  }

  -- the INSERT and the DELETE of one transaction: a grant id that is taken, or a cosigner that is
  -- NULL, is refused by the table, and nothing is written
  unfoldable pub promote : String → Grant → Exec Error Db (Unit {0})
  promote pending_id grant = do
    raise_if (is_none grant.signer_b_l2) other_exception
    db ← get
    raise_if (is_some (fetchone (by_key (λ g. g.grant_id) grant.grant_id) db.grants))
        other_exception
    put (record {
      pending = delete (by_key (λ r. r.pending_id) pending_id) db.pending;
      grants = insert grant db.grants;
    })

  unfoldable pub ratify_grant : String → ℕ → Exec Error Db String
  unfolding load_pending parse_iso promote
  ratify_grant pending_id now = do
    row ← load_pending host pending_id
    raise_if (not (row.status == "cosigned")) conflict
    expires ← parse_iso host row.expires_at
    raise_if (leb expires now) expired
    body ← some_or (host.loads row.body_canonical) other_exception
    raise_if
        (not (verify_sig_over_body host row.proposer_pubkey_b64u body row.proposer_signature_b64u))
        invalid_signature
    cosigner_pubkey ← some_or row.cosigner_pubkey_b64u conflict
    cosigner_signature ← some_or row.cosigner_signature_b64u conflict
    raise_if (not (verify_sig_over_body host cosigner_pubkey body cosigner_signature))
        invalid_signature
    body_expires ← parse_iso host body.expires_at
    raise_if (leb body_expires now) expired
    promote pending_id (grant_row row body cosigner_pubkey cosigner_signature now)
    pure body.grant_id
