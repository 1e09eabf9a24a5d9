-- ===== src/Consent.antt =====
-- server/backend/src/cq_server/xgroup_consent.py: a grant from one group to another that the
-- administrators of both sign: proposed, cosigned, ratified, used, revoked.
pub mod Steps
pub mod Bounds
pub mod Revoke
pub mod Outcomes
pub mod Authority
pub mod Signed
pub mod Lifecycle
mod Sample
mod Tests
pub mod Reads
use th_layer_agent.Common.{
  [], ◌∷◌, ℕ, ◌-◌, ◌*◌, ltb, leb, String, Bool, true, false, not, ◌&&◌, ◌||◌, Option, none, some,
  List, ◌==◌, if◌then◌else◌, ◌∷◌,
}
use th_layer_agent.Common.Exec.{Exec, pure, raise_if, some_or, get, ◌>>=◌, ◌>>◌}
use th_layer_agent.Sql.{fetchone}
use th_layer_agent.Sql.Keys.{by_key}
use th_layer_agent.Crypto.{Ed25519, verify_envelope_signature}
use th_layer_agent.Merkle.{Bytes}

-- The `code` of an XGroupConsentError, and any other exception.
pub data Error : Type 0 where
  not_found conflict invalid_signature expired bad_request other_exception : Error

-- What `datetime.fromisoformat` reads: an instant in microseconds, and whether it has a timezone.
pub record Stamp : Type 0 where
  pub instant : ℕ
  pub aware : Bool

pub record GrantBody : Type 0 where
  pub grant_id : String
  pub enterprise_id : String
  pub source_l2 : String
  pub target_l2 : String
  pub scope_kind : String
  pub scope_values : List String
  pub issued_at : String
  pub expires_at : String
  pub nonce : String
  pub version : String
  pub recovery_operator_pubkey_b64u : String

pub record RevokeEnvelope : Type 0 where
  pub grant_id : String
  pub revoke_ts : String
  pub reason : String
  pub revoker_l2 : String

-- One row of `xgroup_consent_pending`.
pub record Pending : Type 0 where
  pub pending_id : String
  pub enterprise_id : String
  pub source_l2 : String
  pub target_l2 : String
  pub body_canonical : String
  pub body_canonical_sha256_hex : String
  pub proposer_l2 : String
  pub proposer_pubkey_b64u : String
  pub proposer_signature_b64u : String
  pub cosigner_l2 : Option String
  pub cosigner_pubkey_b64u : Option String
  pub cosigner_signature_b64u : Option String
  pub cosigned_at : Option String
  pub proposed_at : String
  pub expires_at : String
  pub status : String

-- One row of `xgroup_consent`.
pub record Grant : Type 0 where
  pub grant_id : String
  pub enterprise_id : String
  pub source_l2 : String
  pub target_l2 : String
  pub body_canonical : String
  pub body_canonical_sha256_hex : String
  pub scope_kind : String
  pub scope_values_json : String
  pub signer_a_l2 : String
  pub signer_a_pubkey_b64u : String
  pub signer_a_signature_b64u : String
  pub signer_b_l2 : Option String
  pub signer_b_pubkey_b64u : String
  pub signer_b_signature_b64u : String
  pub recovery_operator_pubkey_b64u : String
  pub issued_at : String
  pub expires_at : String
  pub ratified_at : String
  pub status : String
  pub revoked_at : Option String
  pub revoked_by_l2 : Option String
  pub revoked_by_pubkey_b64u : Option String
  pub revoked_by_recovery : Bool
  pub revoke_reason : Option String
  pub nonce_b64u : String
  pub version : String

pub record Db : Type 0 where
  pub pending : List Pending
  pub grants : List Grant

-- `datetime`, `rfc8785`, `json`, `hashlib` and Ed25519. `fromisoformat` reads a text after its `Z`
-- is replaced, and `none` is its ValueError; `loads` reads back a body, and `none` is its error.
pub record Host : Type 0 where
  pub fromisoformat : String → Option Stamp
  pub isoformat : ℕ → String
  pub canonicalize : GrantBody → String
  pub canonicalize_revoke : RevokeEnvelope → String
  pub loads : String → Option GrantBody
  pub dumps_values : List String → String
  pub sha256_hex : Bytes → String
  pub ed25519 : Ed25519

abbrev pub max_grant_ttl_days : ℕ
max_grant_ttl_days = 90

abbrev pub cosign_window_days : ℕ
cosign_window_days = 7

abbrev pub grant_body_version : String
grant_body_version = "v1"

-- `timedelta(days=n)`, in microseconds
abbrev pub days : ℕ → ℕ
days n = n * 86400000000

module _ {S : Type 0} (host : Host) where
  unfoldable pub parse_iso : String → Exec Error S ℕ
  parse_iso value = do
    stamp ← some_or (host.fromisoformat value) bad_request
    raise_if (not stamp.aware) bad_request
    pure stamp.instant

-- `value or drawn`
abbrev pub drawn_or : Option String → String → String
drawn_or none drawn = drawn
drawn_or (some v) drawn = if v == "" then drawn else v

pub record BodyRequest : Type 0 where
  pub enterprise_id : String
  pub source_l2 : String
  pub target_l2 : String
  pub scope_kind : String
  pub scope_values : List String
  pub issued_at : String
  pub expires_at : String
  pub recovery_operator_pubkey_b64u : String
  pub nonce_b64u : Option String
  pub grant_id : Option String

abbrev pub is_empty : List String → Bool
is_empty [] = true
is_empty (x ∷ xs) = false

-- the dictionary that `build_grant_body` returns
unfoldable pub built_body : BodyRequest → String → String → GrantBody
built_body req new_id new_nonce = record {
  grant_id = drawn_or req.grant_id new_id;
  enterprise_id = req.enterprise_id;
  source_l2 = req.source_l2;
  target_l2 = req.target_l2;
  scope_kind = req.scope_kind;
  scope_values = req.scope_values;
  issued_at = req.issued_at;
  expires_at = req.expires_at;
  nonce = drawn_or req.nonce_b64u new_nonce;
  version = grant_body_version;
  recovery_operator_pubkey_b64u = req.recovery_operator_pubkey_b64u;
}

module _ (host : Host) where
  -- `new_id` and `new_nonce` are the random values that the call draws.
  unfoldable pub build_grant_body : BodyRequest → String → String → Exec Error (Unit {0}) GrantBody
  unfolding parse_iso
  build_grant_body req new_id new_nonce = do
    raise_if
        (not (
          req.scope_kind == "domains" || (req.scope_kind == "topics") || (req.scope_kind == "all")))
        bad_request
    raise_if (not (req.scope_kind == "all") && is_empty req.scope_values) bad_request
    raise_if (req.source_l2 == req.target_l2) bad_request
    issued ← parse_iso host req.issued_at
    expires ← parse_iso host req.expires_at
    raise_if (leb expires issued) bad_request
    raise_if (ltb (days max_grant_ttl_days) (expires - issued)) bad_request
    pure (built_body req new_id new_nonce)

  unfoldable pub body_sha256_hex : GrantBody → String
  body_sha256_hex body = host.sha256_hex (host.ed25519.encode (host.canonicalize body))

  unfoldable pub verify_sig_over_body : String → GrantBody → String → Bool
  verify_sig_over_body pubkey body signature =
      verify_envelope_signature host.ed25519 pubkey (host.canonicalize body) signature

  unfoldable pub load_pending : String → Exec Error Db Pending
  load_pending pending_id = do
    db ← get
    some_or (fetchone (by_key (λ r. r.pending_id) pending_id) db.pending) not_found

  unfoldable pub load_active : String → Exec Error Db Grant
  load_active grant_id = do
    db ← get
    some_or (fetchone (by_key (λ r. r.grant_id) grant_id) db.grants) not_found
