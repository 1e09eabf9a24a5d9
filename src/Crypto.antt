-- ===== src/Crypto.antt =====
-- server/backend/src/cq_server/crypto.py: base64url without padding, Ed25519 signatures and their
-- check, over the libraries that do the decoding and the arithmetic.
use Prim.Native.Char.{code}
use Prim.Native.String.{count}
use th_layer_agent.Common.{
  ℕ, zero, suc, String, str_append, Bool, false, Option, none, some, ◌-◌, ◌%◌, if◌then◌else◌, ◌==◌,
  ◌&&◌, nat_eq,
}
use th_layer_agent.Merkle.{Bytes}

-- `base64.urlsafe_b64decode` (`none` is its ValueError), `Ed25519PublicKey.from_public_bytes`
-- likewise, and the verification, with the text's UTF-8.
pub record Ed25519 : Type 0 where
  pub urlsafe_b64decode : String → Option Bytes
  pub from_public_bytes : Bytes → Option Bytes
  pub verify : Bytes → Bytes → Bytes → Bool
  pub encode : String → Bytes

-- `"=" * n`
unfoldable pub equals_signs : ℕ → String
equals_signs zero = ""
equals_signs (suc n) = str_append "=" (equals_signs n)

-- `.rstrip("=")`; 61 is the code of `=`.
unfoldable pub rstrip_equals : String → String
rstrip_equals String.[] = ""
rstrip_equals (String.◌∷◌ c s) =
    let rest = rstrip_equals s in
    if (rest == "") && nat_eq (code c) 61 then "" else String.◌∷◌ c rest

unfoldable pub b64u : (Bytes → String) → Bytes → String
unfolding rstrip_equals
b64u urlsafe_b64encode b = rstrip_equals (urlsafe_b64encode b)

-- `sign key message` is the private key's `sign`.
unfoldable pub sign_raw : (Bytes → String) → (String → Bytes → Bytes) → String → Bytes → String
unfolding b64u
sign_raw urlsafe_b64encode sign key message = b64u urlsafe_b64encode (sign key message)

module _ (ed : Ed25519) where
  unfoldable pub b64u_decode : String → Option Bytes
  unfolding equals_signs
  b64u_decode s = ed.urlsafe_b64decode (str_append s (equals_signs ((4 - count s % 4) % 4)))

  -- Every failure to decode or to verify is `False`.
  unfoldable pub verify_envelope_signature : String → String → String → Bool
  unfolding b64u_decode
  verify_envelope_signature pubkey_b64u payload_canonical signature_b64u =
      elim (b64u_decode pubkey_b64u) [
        | none ↦ false
        | some raw ↦ elim (ed.from_public_bytes raw) [
          | none ↦ false
          | some pub_key ↦ elim (b64u_decode signature_b64u) [
            | none ↦ false
            | some signature ↦ ed.verify pub_key signature (ed.encode payload_canonical)
          ]
        ]
      ]

  -- The same for a message of raw bytes.
  unfoldable pub verify_raw : String → Bytes → String → Bool
  unfolding b64u_decode
  verify_raw pubkey_b64u_str message signature_b64u = elim (b64u_decode pubkey_b64u_str) [
    | none ↦ false
    | some raw ↦ elim (ed.from_public_bytes raw) [
      | none ↦ false
      | some pub_key ↦ elim (b64u_decode signature_b64u) [
        | none ↦ false
        | some signature ↦ ed.verify pub_key signature message
      ]
    ]
  ]
