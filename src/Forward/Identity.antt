-- ===== src/Forward/Identity.antt =====
-- aigrp/_legacy.py and forward_sign.py: the identity that a forwarding server declares, and the
-- signature with which it proves it where its key is known.
use th_layer_agent.Common.{
  given, ℕ, String, Bool, true, false, not, ◌&&◌, Option, none, some, List, ◌++◌, ◌==◌,
  if◌then◌else◌,
}
use th_layer_agent.Common.Exec.{Result, ok, err}
use th_layer_agent.Common.Splits.{split_once}
use th_layer_agent.Crypto.{Ed25519, verify_raw}
use th_layer_agent.Merkle.{Bytes}
use th_layer_agent.Sql.{fetchone}
use th_layer_agent.Sql.Keys.{by_key}

-- `http` is an HTTPException with its status, `uncaught` an exception that the handler does not catch.
pub data Failure : Type 0 where
  http : ℕ → Failure
  uncaught : Failure

-- One row of `aigrp_peers`, in the columns that are read.
pub record Peer : Type 0 where
  pub l2_id : String
  pub public_key_ed25519 : Option String

-- The libraries' functions (`canonicalize` is JCS, `none` its exception), and the process's
-- environment: its Enterprise and group, and whether CQ_REQUIRE_SIGNED_FORWARDS is `true`.
pub record Host (Body : Type 0) : Type 0 where
  pub ed : Ed25519
  pub canonicalize : Body → Option Bytes
  pub strip : String → String
  pub enterprise : String
  pub group : String
  pub require_signed_forwards : Bool

-- The two headers, and whether the lookup of the key ends with an exception.
pub record Headers : Type 0 where
  pub forwarder_l2_id : Option String
  pub forwarder_sig : Option String
  pub lookup_fails : Bool

abbrev pub header_text : Option String → String
header_text none = ""
header_text (some s) = s

unfoldable pub get_aigrp_peer_pubkey : String → List Peer → Option String
get_aigrp_peer_pubkey l2_id peers = elim (fetchone (by_key (λ r. r.l2_id) l2_id) peers) [
  | none ↦ none
  | some row ↦ row.public_key_ed25519
]

module _ {Body : Type 0} (host : Host Body) where
  unfoldable pub signing_input_for : Body → String → Option Bytes
  signing_input_for body forwarder_l2_id = elim (host.canonicalize body) [
    | none ↦ none
    | some bytes ↦ some (bytes ++ (host.ed).encode forwarder_l2_id)
  ]

  unfoldable pub verify_forward_signature : String → Body → String → String → Option Bool
  unfolding signing_input_for
  verify_forward_signature pubkey body forwarder_l2_id signature =
      elim (signing_input_for body forwarder_l2_id) [
        | none ↦ none
        | some message ↦ some (verify_raw host.ed pubkey message signature)
      ]

  -- the part of the check that the body's signature decides
  unfoldable pub check_forward_signature :
      List Peer → Headers → Body → String → Result Failure String
  unfolding get_aigrp_peer_pubkey verify_forward_signature
  check_forward_signature peers headers body declared =
      let peer_pubkey =
        if headers.lookup_fails then none else get_aigrp_peer_pubkey declared peers in
      let sig_header = host.strip (header_text headers.forwarder_sig) in
      elim (given peer_pubkey) [
        | none ↦ if host.require_signed_forwards then err (http 403) else ok declared
        | some pubkey ↦
            if sig_header == ""
            then err (http 403)
            else elim (verify_forward_signature pubkey body declared sig_header) [
              | none ↦ err uncaught
              | some true ↦ ok declared
              | some false ↦ err (http 403)
            ]
      ]

  -- The declared id. `none` in the place of the body is a caller without a signature to check.
  unfoldable pub require_forwarder_identity :
      List Peer → Headers → String → Bool → Option Body → Result Failure String
  unfolding split_once check_forward_signature
  require_forwarder_identity peers headers claimed_l2_id same_enterprise_only body_for_sig =
      let declared = host.strip (header_text headers.forwarder_l2_id) in
      if declared == ""
      then err (http 400)
      else if not (declared == claimed_l2_id)
      then err (http 403)
      else elim (split_once 47 declared) [
        | none ↦ err (http 400)
        | some (declared_enterprise, rest) ↦
            if declared_enterprise == ""
            then err (http 400)
            else if same_enterprise_only && not (declared_enterprise == host.enterprise)
            then err (http 403)
            else elim body_for_sig [
              | none ↦ ok declared
              | some body ↦ check_forward_signature peers headers body declared
            ]
      ]
