-- ===== src/Forward/Signed.antt =====
-- What the check of a forwarder's identity has shown where it accepts one.
use th_layer_agent.Common.{
  given, String, Bool, true, false, ◌≡◌, sym, ap, ◌∙◌, none, some, List, arith, Bool-cases,
  Option-cases, inl, inr, ◌⊎◌, str_eq→eq, ◌==◌,
}
use th_layer_agent.Common.Exec.{ok, ok_inj}
use th_layer_agent.Common.Splits.{split_once}
use th_layer_agent.Crypto.{verify_raw}
use th_layer_agent.Merkle.{Bytes}
use th_layer_agent.Forward.Identity.{
  Peer, Host, Headers, header_text, get_aigrp_peer_pubkey, signing_input_for,
  verify_forward_signature, check_forward_signature, require_forwarder_identity,
}

module _ {Body : Type 0} (host : Host Body) (peers : List Peer) (headers : Headers) where
  -- the header's signature is one over the body and the id, with the key on file
  unfoldable pub SignedBy : String → Body → String → Type 0
  SignedBy pubkey body id =
      (message : Bytes) × (signing_input_for host body id ≡ some message)
      × (verify_raw host.ed pubkey message (host.strip (header_text headers.forwarder_sig)) ≡ true)

  -- where a key is on file, the signature is with it; where none is, unsigned requests are let in
  unfoldable pub Proven : Body → String → Type 0
  Proven body id =
      ((pubkey : String) × (given (get_aigrp_peer_pubkey id peers) ≡ some pubkey)
        × SignedBy pubkey body id)
      ⊎ ((host.require_signed_forwards ≡ false)
          × ((given (get_aigrp_peer_pubkey id peers) ≡ none) ⊎ (headers.lookup_fails ≡ true)))

  signature-Proven :
      (body : Body) (declared id : String)
      → check_forward_signature host peers headers body declared ≡ ok id
      → (id ≡ declared) × Proven body declared
  unfolding check_forward_signature verify_forward_signature SignedBy Proven
  signature-Proven body declared id h = elim (Bool-cases headers.lookup_fails) [
    | inl t ↦ elim (Bool-cases host.require_signed_forwards) [
      | inl s ↦ absurd (ground arith)
      | inr s ↦
          let run : check_forward_signature host peers headers body declared ≡ ok declared =
            ground arith in
          (ok_inj (sym h ∙ run), inr (s, inr t))
    ]
    | inr f ↦ elim (Option-cases (given (get_aigrp_peer_pubkey declared peers))) [
      | inl n ↦ elim (Bool-cases host.require_signed_forwards) [
        | inl s ↦ absurd (ground arith)
        | inr s ↦
            let run : check_forward_signature host peers headers body declared ≡ ok declared =
              ground arith in
            (ok_inj (sym h ∙ run), inr (s, inl n))
      ]
      | inr (pubkey, e) ↦ elim (Option-cases (signing_input_for host body declared)) [
        | inl n ↦ absurd (ground arith)
        | inr (message, m) ↦
            elim (Bool-cases (
              verify_raw host.ed pubkey message (host.strip (header_text headers.forwarder_sig)))) [
                | inl t ↦
                    let run : check_forward_signature host peers headers body declared
                        ≡ ok declared =
                      ground arith in
                    (ok_inj (sym h ∙ run), inl (pubkey, e, (message, m, t)))
                | inr g ↦ absurd (ground arith)
              ]
      ]
    ]
  ]

  -- An accepted forwarder has declared the id that the body claims. Its signature over the body and
  -- the id is made with the key on file, or there is none on file (or the lookup failed) and unsigned
  -- requests are let in. Where only the own Enterprise may ask, the id begins with it.
  pub require_forwarder_identity-Proven :
      (claimed id : String) (same_enterprise_only : Bool) (body : Body)
      → require_forwarder_identity host peers headers claimed same_enterprise_only (some body)
        ≡ ok id
      → (id ≡ claimed)
        × Proven body claimed
        × (same_enterprise_only ≡ true
            → (group : String) × (split_once 47 claimed ≡ some (host.enterprise, group)))
  unfolding require_forwarder_identity
  require_forwarder_identity-Proven claimed id same_enterprise_only body h =
      elim (Bool-cases (host.strip (header_text headers.forwarder_l2_id) == claimed)) [
        | inr f ↦ absurd (ground arith)
        | inl t ↦
            let same = str_eq→eq (host.strip (header_text headers.forwarder_l2_id)) claimed t in
            elim (Option-cases (split_once 47 claimed)) [
              | inl n ↦ absurd (ground arith)
              | inr ((e_id, group), p) ↦
                  let checked : check_forward_signature host peers headers body claimed ≡ ok id =
                    ground arith in
                  let proven = signature-Proven body claimed id checked in
                  (
                    proven.0,
                    proven.1,
                    λ only. (
                      group,
                      elim (Bool-cases (e_id == host.enterprise)) [
                        | inl own ↦
                            p ∙ ap (λ x. some (x, group)) (str_eq→eq e_id host.enterprise own)
                        | inr other ↦ absurd (ground arith)
                      ],
                    ),
                  )
            ]
      ]
