-- ===== src/Aigrp/Round.antt =====
-- envelope.py: `verify_envelope` on what `sign_envelope` makes.
use Prim.Native.String.{count}
use th_layer_agent.Common.{
  ℕ, ◌-◌, ◌%◌, ltb, String, str_append, true, false, ◌≡◌, refl, sym, ◌∙◌, ap, some, List, ◌==◌,
  arith, Bool-cases, Option-cases, inl, inr, nat_eq, some_inj, length, str_eq_refl, Option,
}
use th_layer_agent.Common.Exec.{ok}
use th_layer_agent.Common.Splits.{has_char}
use th_layer_agent.Crypto.{b64u, rstrip_equals, b64u_decode, equals_signs}
use th_layer_agent.Merkle.{Bytes}
use th_layer_agent.Replay.{Entry, Limits, check_and_record}
use th_layer_agent.Aigrp.PairSecret.{lex_min_canonical}
use th_layer_agent.Aigrp.Envelope.{
  Wire, text, Libraries, Defaults, text_or, bytes_or, sign_with, sign_envelope, canonical_pair_id,
  unsigned,
}
use th_layer_agent.Aigrp.Verify.{
  Clocks, tolerance, skew, time_of, decoded, check_header, check_mac, verify_envelope, lacks_member,
}
use th_layer_agent.Aigrp.Padding.{rstrip-padding}
use th_layer_agent.Aigrp.Checked.{bytes_eq_refl}

-- What the base64 functions are documented to do: a text without `=`, then as many as fill its last
-- group of four, which decodes to the same bytes.
pub record IsBase64 {J : Type 0} (lib : Libraries J) : Type 0 where
  pub digits : Bytes → String
  pub no_equals : (b : Bytes) → has_char 61 (digits b) ≡ false
  pub padded :
      (b : Bytes)
      → lib.urlsafe_b64encode b
        ≡ str_append (digits b) (equals_signs ((4 - count (digits b) % 4) % 4))
  pub decode-encode : (b : Bytes) → lib.ed.urlsafe_b64decode (lib.urlsafe_b64encode b) ≡ some b

module _ {J : Type 0} (lib : Libraries J) (base64 : IsBase64 lib) where
  decode-b64u : (b : Bytes) → b64u_decode lib.ed (b64u lib.urlsafe_b64encode b) ≡ some b
  unfolding b64u_decode b64u
  decode-b64u b =
      let bare : rstrip_equals (lib.urlsafe_b64encode b) ≡ base64.digits b =
        ap rstrip_equals (base64.padded b)
        ∙ rstrip-padding (base64.digits b) _ (base64.no_equals b) in
      ap (λ t. lib.ed.urlsafe_b64decode (str_append t (equals_signs ((4 - count t % 4) % 4)))) bare
      ∙ ap lib.ed.urlsafe_b64decode (sym (base64.padded b))
      ∙ base64.decode-encode b

  -- the envelope that is signed, and its mac
  Signing : Bytes → String → String → J → String → Bytes → String → Wire J → String → Type 0
  Signing pair_secret src dst payload ts nonce msg_id w mac =
      (pair : String) × ((bytes : Bytes) × (canonical_pair_id lib src dst ≡ some pair)
        × (w ≡ unsigned pair src dst payload ts (b64u lib.urlsafe_b64encode nonce) msg_id)
        × (lib.canonicalize w ≡ some bytes)
        × (mac ≡ b64u lib.urlsafe_b64encode (lib.hmac_sha256 pair_secret bytes)))

  sign-Signing :
      (pair_secret : Bytes) (src dst : String) (payload : J) (ts : String) (nonce : Bytes)
      (msg_id : String) (w : Wire J) (mac : String)
      → sign_with lib pair_secret src dst payload ts nonce msg_id ≡ some (w, mac)
      → Signing pair_secret src dst payload ts nonce msg_id w mac
  unfolding sign_with Signing
  sign-Signing pair_secret src dst payload ts nonce msg_id w mac h =
      elim (Bool-cases (nat_eq (length pair_secret) 32)) [
        | inr f ↦ absurd (ground arith)
        | inl t ↦ elim (Option-cases (canonical_pair_id lib src dst)) [
          | inl n ↦ absurd (ground arith)
          | inr (pair, e) ↦
              let envelope : Wire J =
                unsigned pair src dst payload ts (b64u lib.urlsafe_b64encode nonce) msg_id in
              elim (Option-cases (lib.canonicalize envelope)) [
                | inl n ↦ absurd (ground arith)
                | inr (bytes, c) ↦
                    let made : ◌≡◌ {A = Wire J × String}
                        (envelope, b64u lib.urlsafe_b64encode (lib.hmac_sha256 pair_secret bytes))
                        (w, mac) =
                      some_inj (ground arith) in
                    (
                      pair,
                      (
                        bytes,
                        e,
                        sym (ap (λ x. x.0) made),
                        ap lib.canonicalize (sym (ap (λ x. x.0) made)) ∙ c,
                        sym (ap (λ x. x.1) made),
                      ),
                    )
              ]
        ]
      ]

  canonical-full :
      (src dst pair : String)
      → canonical_pair_id lib src dst ≡ some pair
      → (src == "" ≡ false) × (dst == "" ≡ false)
  unfolding canonical_pair_id lex_min_canonical
  canonical-full src dst pair e = (ground arith, ground arith)

  header-runs :
      (pair src dst : String) (payload : J) (ts : String) (nonce : Bytes) (msg_id mac : String)
      (now at : ℕ) (s : List Entry)
      → canonical_pair_id lib src dst ≡ some pair
      → time_of lib (text ts) ≡ ok at
      → ltb tolerance (skew now at) ≡ false
      → msg_id == "" ≡ false
      → check_header lib
          (unsigned pair src dst payload ts (b64u lib.urlsafe_b64encode nonce) msg_id)
          (text mac)
          dst
          now
          s
        ≡ (ok (src, msg_id, payload), s)
  unfolding check_header lacks_member decoded
  header-runs pair src dst payload ts nonce msg_id mac now at s e at_time in_time full =
      let ids = canonical-full src dst pair e in
      ground (arith, ids.0, ids.1, str_eq_refl dst, str_eq_refl pair, decode-b64u nonce)

  mac-runs :
      (w : Wire J) (pair_secret bytes : Bytes) (s : List Entry)
      → lib.canonicalize w ≡ some bytes
      → check_mac lib w
          (text (b64u lib.urlsafe_b64encode (lib.hmac_sha256 pair_secret bytes)))
          pair_secret
          s
        ≡ (ok tt, s)
  unfolding check_mac decoded
  mac-runs w pair_secret bytes s c =
      rw (decode-b64u (lib.hmac_sha256 pair_secret bytes))
        (ground (arith, bytes_eq_refl (lib.hmac_sha256 pair_secret bytes)))

  verify-sign_with :
      (limits : Limits) (pair_secret : Bytes) (src dst : String) (payload : J) (ts : String)
      (nonce : Bytes) (msg_id : String) (w : Wire J) (mac : String) (clocks : Clocks) (at : ℕ)
      (s : List Entry)
      → sign_with lib pair_secret src dst payload ts nonce msg_id ≡ some (w, mac)
      → time_of lib (text ts) ≡ ok at
      → ltb tolerance (skew clocks.now at) ≡ false
      → msg_id == "" ≡ false
      → (check_and_record limits src msg_id clocks.monotonic s).0 ≡ true
      → verify_envelope lib limits w (text mac) pair_secret dst clocks s
        ≡ (ok payload, (check_and_record limits src msg_id clocks.monotonic s).1)
  unfolding verify_envelope Signing
  verify-sign_with limits pair_secret src dst payload ts nonce msg_id w mac clocks at s signed
        at_time in_time full fresh =
      let signing = sign-Signing pair_secret src dst payload ts nonce msg_id w mac signed in
      let made = signing.1 in
      let header : check_header lib w (text mac) dst clocks.now s ≡ (ok (src, msg_id, payload), s) =
        rw (made.2) (
          header-runs signing.0 src dst payload ts nonce msg_id mac clocks.now at s made.1 at_time
            in_time full) in
      let mac_ok : check_mac lib w (text mac) pair_secret s ≡ (ok tt, s) =
        rw (made.4) (mac-runs w pair_secret made.0 s made.3) in
      rw header (rw mac_ok (rw fresh refl))

  -- A signed envelope passes the receiver's checks, where the secret is the sender's, the time stamp is
  -- a time within the tolerance, the id is neither empty nor known from this sender, and the base64
  -- functions do what they are documented to do. Time stamp, nonce and id are those that are given, or
  -- the values that stand in for absent ones.
  pub verify_envelope-sign_envelope :
      (limits : Limits) (pair_secret : Bytes) (src dst : String) (payload : J)
      (fresh_values : Defaults) (ts : Option String) (nonce : Option Bytes) (msg_id : Option String)
      (w : Wire J) (mac : String) (clocks : Clocks) (at : ℕ) (s : List Entry)
      → sign_envelope lib fresh_values pair_secret src dst payload ts nonce msg_id ≡ some (w, mac)
      → time_of lib (text (text_or ts fresh_values.now_iso)) ≡ ok at
      → ltb tolerance (skew clocks.now at) ≡ false
      → text_or msg_id fresh_values.uuid4 == "" ≡ false
      → (check_and_record limits src (text_or msg_id fresh_values.uuid4) clocks.monotonic s).0
        ≡ true
      → verify_envelope lib limits w (text mac) pair_secret dst clocks s ≡ (
        ok payload,
        (check_and_record limits src (text_or msg_id fresh_values.uuid4) clocks.monotonic s).1,
      )
  unfolding sign_envelope
  verify_envelope-sign_envelope limits pair_secret src dst payload fresh_values ts nonce msg_id =
      verify-sign_with limits pair_secret src dst payload (text_or ts fresh_values.now_iso)
        (bytes_or nonce fresh_values.token_bytes) (text_or msg_id fresh_values.uuid4)
