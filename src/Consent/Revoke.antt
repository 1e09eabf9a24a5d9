-- ===== src/Consent/Revoke.antt =====
-- xgroup_consent.py: who may revoke a grant, and the revocation.
use th_layer_agent.Common.{
  ℕ, leb, String, Bool, true, false, not, ◌&&◌, ◌||◌, Option, none, some, ◌==◌, opt_eq,
  if◌then◌else◌,
}
use th_layer_agent.Common.Exec.{Exec, pure, raise, raise_if, get, put, ◌>>=◌, ◌>>◌}
use th_layer_agent.Sql.{update}
use th_layer_agent.Crypto.{verify_envelope_signature}
use th_layer_agent.Consent.{
  Error, conflict, invalid_signature, expired, bad_request, Grant, Db, Host, RevokeEnvelope,
  parse_iso, load_active,
}

-- `key_lineage_walker`: from an administrator's group and a pinned key to a current key
abbrev pub Walker : Type 0
Walker = String → String → String → Bool

pub record Revocation : Type 0 where
  pub grant_id : String
  pub revoker_pubkey_b64u : String
  pub revoker_signature_b64u : String
  pub revoker_l2 : Option String
  pub reason : Option String
  pub revoke_ts : String
  pub is_recovery : Bool
  pub key_lineage_walker : Option Walker

-- `value or ""`
abbrev or_empty : Option String → String
or_empty none = ""
or_empty (some v) = v

unfoldable pub revoke_envelope : Revocation → RevokeEnvelope
revoke_envelope req = record {
  grant_id = req.grant_id;
  revoke_ts = req.revoke_ts;
  reason = or_empty req.reason;
  revoker_l2 = or_empty req.revoker_l2;
}

-- The lineage from the signer slot of the revoker's group; the first slot wins.
unfoldable pub chained : Walker → String → String → Grant → Bool
chained walker l2 pubkey row =
    if l2 == row.signer_a_l2
    then walker l2 row.signer_a_pubkey_b64u pubkey
    else if opt_eq (some l2) row.signer_b_l2
    then walker l2 row.signer_b_pubkey_b64u pubkey
    else false

-- The branch for a key that is neither pinned nor the recovery key.
unfoldable pub lineage : Revocation → Grant → Exec Error Db Bool
unfolding chained
lineage req row = elim req.key_lineage_walker [
  | none ↦ raise invalid_signature
  | some walker ↦ elim req.revoker_l2 [
    | none ↦ raise invalid_signature
    | some l2 ↦ do
      raise_if (not (chained walker l2 req.revoker_pubkey_b64u row)) invalid_signature
      pure false
  ]
]

-- The value of `revoked_by_recovery`, or the refusal.
unfoldable pub authorise : Revocation → Grant → Exec Error Db Bool
unfolding lineage
authorise req row =
    if req.is_recovery
    then (do
      raise_if (not (req.revoker_pubkey_b64u == row.recovery_operator_pubkey_b64u))
          invalid_signature
      pure true)
    else if (req.revoker_pubkey_b64u == row.signer_a_pubkey_b64u)
        || (req.revoker_pubkey_b64u == row.signer_b_pubkey_b64u)
    then pure false
    else if req.revoker_pubkey_b64u == row.recovery_operator_pubkey_b64u
    then raise bad_request
    else lineage req row

-- UPDATE ... WHERE grant_id = :gid AND status = 'active'
abbrev pub is_live : String → Grant → Bool
is_live grant_id r = (r.grant_id == grant_id) && (r.status == "active")

module _ (host : Host) where
  unfoldable pub revoked_row : Revocation → Bool → ℕ → Grant → Grant
  revoked_row req by_recovery now r = record r {
    status = "revoked";
    revoked_at = some (host.isoformat now);
    revoked_by_l2 = req.revoker_l2;
    revoked_by_pubkey_b64u = some req.revoker_pubkey_b64u;
    revoked_by_recovery = by_recovery;
    revoke_reason = req.reason;
  }

  unfoldable pub revoke_grant : Revocation → ℕ → Exec Error Db Bool
  unfolding load_active parse_iso authorise revoke_envelope
  revoke_grant req now = do
    row ← load_active host req.grant_id
    raise_if (not (row.status == "active")) conflict
    expires ← parse_iso host row.expires_at
    raise_if (leb expires now) expired
    raise_if
        (not (
          verify_envelope_signature host.ed25519 req.revoker_pubkey_b64u
            (host.canonicalize_revoke (revoke_envelope req)) req.revoker_signature_b64u))
        invalid_signature
    by_recovery ← authorise req row
    db ← get
    put (record db {
      grants = update (is_live req.grant_id) (revoked_row req by_recovery now) db.grants;
    })
    pure by_recovery
