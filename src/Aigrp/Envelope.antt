-- ===== src/Aigrp/Envelope.antt =====
-- envelope.py: an envelope between two groups, its signature under their secret, and the check of it.
use th_layer_agent.Common.{
  ℕ, String, not, Option, none, some, List, [], ◌==◌, if◌then◌else◌, nat_eq, length, ◌∷◌,
}
use th_layer_agent.Common.Exec.{ok, err}
use th_layer_agent.Crypto.{Ed25519, b64u}
use th_layer_agent.Merkle.{Bytes}
use th_layer_agent.Aigrp.PairSecret.{lex_min_canonical}

-- A member of a JSON object: absent, a text, or a value of another type.
pub data Field : Type 0 where
  absent : Field
  text : String → Field
  other_type : Field

-- An envelope as it arrives, with the members that the code does not know. `J` are the JSON values.
pub record Wire (J : Type 0) : Type 0 where
  pub version : Field
  pub pair_id : Field
  pub src_l2_id : Field
  pub dst_l2_id : Field
  pub ts : Field
  pub nonce : Field
  pub msg_id : Field
  pub payload : Option J
  pub more : List (String × J)

-- `rejected` is an EnvelopeVerificationError with its reason, `uncaught` any other exception.
pub data Rejection : Type 0 where
  rejected : String → Rejection
  uncaught : Rejection

-- What the code takes from the libraries: base64 (with the padding undone), UTF-8, JCS (`none` is its
-- exception), HMAC-SHA256, and the reading of a time in microseconds since the epoch, where
-- `some none` is a time without its offset.
pub record Libraries (J : Type 0) : Type 0 where
  pub ed : Ed25519
  pub urlsafe_b64encode : Bytes → String
  pub encode : String → Bytes
  pub decode : Bytes → String
  pub canonicalize : Wire J → Option Bytes
  pub hmac_sha256 : Bytes → Bytes → Bytes
  pub fromisoformat : String → Option (Option ℕ)

abbrev pub unsigned :
    {J : Type 0} → String → String → String → J → String → String → String → Wire J
unsigned pair_id src dst payload ts nonce msg_id = record {
  version = text "v1";
  pair_id = text pair_id;
  src_l2_id = text src;
  dst_l2_id = text dst;
  ts = text ts;
  nonce = text nonce;
  msg_id = text msg_id;
  payload = some payload;
  more = [];
}

-- The values that stand in for absent arguments: the time of day, random bytes and a random id.
pub record Defaults : Type 0 where
  pub now_iso : String
  pub token_bytes : Bytes
  pub uuid4 : String

-- `value or default`: an empty value counts as absent
abbrev pub text_or : Option String → String → String
text_or none default = default
text_or (some s) default = if s == "" then default else s

abbrev pub bytes_or : Option Bytes → Bytes → Bytes
bytes_or none default = default
bytes_or (some []) default = default
bytes_or (some (b ∷ bytes)) default = b ∷ bytes

module _ {J : Type 0} (lib : Libraries J) where
  -- `none` is the ValueError of `lex_min_canonical`
  unfoldable pub canonical_pair_id : String → String → Option String
  unfolding lex_min_canonical
  canonical_pair_id src dst = elim (lex_min_canonical lib.encode src dst) [
    | err e ↦ none
    | ok b ↦ some (lib.decode b)
  ]

  -- The envelope and its mac, behind the defaults; `none` is a ValueError, or an exception of the
  -- canonical form.
  unfoldable pub sign_with :
      Bytes → String → String → J → String → Bytes → String → Option (Wire J × String)
  unfolding canonical_pair_id b64u
  sign_with pair_secret src dst payload ts nonce msg_id =
      if not (nat_eq (length pair_secret) 32) then none else elim (canonical_pair_id src dst) [
        | none ↦ none
        | some pair_id ↦
            let envelope =
              unsigned pair_id src dst payload ts (b64u lib.urlsafe_b64encode nonce) msg_id in
            elim (lib.canonicalize envelope) [
              | none ↦ none
              | some bytes ↦
                  some (envelope, b64u lib.urlsafe_b64encode (lib.hmac_sha256 pair_secret bytes))
            ]
      ]

  unfoldable pub sign_envelope :
      Defaults
      → Bytes
      → String
      → String
      → J
      → Option String
      → Option Bytes
      → Option String
      → Option (Wire J × String)
  unfolding sign_with
  sign_envelope fresh pair_secret src dst payload ts nonce msg_id =
      sign_with pair_secret src dst payload (text_or ts fresh.now_iso)
        (bytes_or nonce fresh.token_bytes) (text_or msg_id fresh.uuid4)
