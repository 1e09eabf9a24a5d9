-- ===== src/Aigrp/Tests.antt =====
-- Envelopes at concrete libraries: the text form of bytes is that of the Merkle samples, padded.
use Prim.Native.String.{count}
use th_layer_agent.Common.{
  ◌⊎◌, ℕ, zero, suc, ◌-◌, ◌%◌, ◌≢◌, ◌≡◌, refl, ap, ◌∙◌, String, str_append, true, false, Option,
  none, some, [], ◌∷◌, ◌++◌, ◌==◌, arith, if◌then◌else◌,
}
use th_layer_agent.Common.Exec.{ok, err}
use th_layer_agent.Common.Splits.{has_char}
use th_layer_agent.Crypto.{b64u, rstrip_equals, equals_signs, b64u_decode}
use th_layer_agent.Merkle.{Bytes}
use th_layer_agent.Merkle.Sample.{toy, toy_text, toy-IsHashing, unary}
use th_layer_agent.Replay.{Limits, check_and_record}
use th_layer_agent.Aigrp.Envelope.{
  rejected, absent, Wire, Field, text, other_type, uncaught, Libraries, Defaults, sign_envelope,
  canonical_pair_id,
}
use th_layer_agent.Aigrp.Verify.{Clocks, lacks_member, skew, time_of, verify_envelope}
use th_layer_agent.Aigrp.Errors.{verify_envelope-failure}
use th_layer_agent.Aigrp.Once.{Arrival, verify, verify_all, verify_envelope-once}
use th_layer_agent.Aigrp.Reasons.{Explained}
use th_layer_agent.Aigrp.Padding.{rstrip-padding}
use th_layer_agent.Aigrp.Round.{IsBase64, verify_envelope-sign_envelope}

unfoldable padding : String → String
unfolding equals_signs
padding s = equals_signs ((4 - count s % 4) % 4)

abbrev id_codes : Field → Option Bytes
id_codes (text s) = some (toy.encode s)
id_codes other_type = none
id_codes absent = none

abbrev lib : Libraries String
lib = record {
  ed = record {
    urlsafe_b64decode = λ s. toy.from_hex (rstrip_equals s);
    from_public_bytes = λ b. some b;
    verify = λ k m s. true;
    encode = toy.encode;
  };
  urlsafe_b64encode = λ b. str_append (toy_text b) (padding (toy_text b));
  encode = toy.encode;
  decode = toy_text;
  canonicalize = λ w. id_codes w.msg_id;
  hmac_sha256 = λ key b. b ++ key;
  fromisoformat = λ s. if s == "t5" then some (some 5) else none;
}

unary-no_equals : (n : ℕ) (s : String) → has_char 61 s ≡ false → has_char 61 (unary n s) ≡ false
unfolding has_char
unary-no_equals zero s h = h
unary-no_equals (suc n) s h = unary-no_equals n s h

toy_text-no_equals : (b : Bytes) → has_char 61 (toy_text b) ≡ false
unfolding has_char
toy_text-no_equals [] = refl
toy_text-no_equals (n ∷ b) = unary-no_equals n (toy_text b) (toy_text-no_equals b)

lib-IsBase64 : IsBase64 lib
unfolding equals_signs padding
lib-IsBase64 = record {
  digits = toy_text;
  no_equals = toy_text-no_equals;
  padded = λ b. refl;
  decode-encode = λ b.
      ap toy.from_hex
        (rstrip-padding (toy_text b) ((4 - count (toy_text b) % 4) % 4) (toy_text-no_equals b))
      ∙ toy-IsHashing.from_hex-to_hex b;
}

abbrev secret : Bytes
secret =
    1 ∷ 2 ∷ 3 ∷ 4 ∷ 5 ∷ 6 ∷ 7 ∷ 8 ∷ 1 ∷ 2 ∷ 3 ∷ 4 ∷ 5 ∷ 6 ∷ 7 ∷ 8 ∷ 1 ∷ 2 ∷ 3 ∷ 4 ∷ 5 ∷ 6 ∷ 7 ∷ 8
    ∷ 1 ∷ 2 ∷ 3 ∷ 4 ∷ 5 ∷ 6 ∷ 7 ∷ 8 ∷ []

abbrev limits : Limits
limits = record { ttl = 600000000; max = 3 }

abbrev pair_text : String
pair_text =
    toy_text (toy.encode "aigrp-pair:" ++ toy.encode "a/x" ++ toy.encode ":" ++ toy.encode "a/y")

abbrev letter : Wire String
unfolding b64u
letter = record {
  version = text "v1";
  pair_id = text pair_text;
  src_l2_id = text "a/x";
  dst_l2_id = text "a/y";
  ts = text "t5";
  nonce = text (b64u lib.urlsafe_b64encode (9 ∷ []));
  msg_id = text "m1";
  payload = some "hi";
  more = [];
}

abbrev letter_mac : String
unfolding b64u
letter_mac = b64u lib.urlsafe_b64encode (toy.encode "m1" ++ secret)

abbrev clocks : ℕ → Clocks
clocks now = record { now = now; monotonic = now }

run : Unit {0}
unfolding padding equals_signs rstrip_equals sign_envelope check_and_record lacks_member skew
    time_of b64u canonical_pair_id verify_envelope verify_all b64u_decode
run = tt

abbrev fresh_values : Defaults
fresh_values = record { now_iso = "t5"; token_bytes = 9 ∷ []; uuid4 = "m1" }

signed :
    sign_envelope lib fresh_values secret "a/x" "a/y" "hi" none none (some "m1")
    ≡ some (letter, letter_mac)
unfolding run
signed = refl

verify_envelope-sign_envelope_example :
    verify_envelope lib limits letter (text letter_mac) secret "a/y" (clocks 7) []
    ≡ (ok "hi", (check_and_record limits "a/x" "m1" 7 []).1)
unfolding run
verify_envelope-sign_envelope_example =
    verify_envelope-sign_envelope lib lib-IsBase64 limits secret "a/x" "a/y" "hi" fresh_values none
      none (some "m1") letter letter_mac (clocks 7) 5 [] signed refl refl refl refl

abbrev arrival : ℕ → Arrival String
arrival now = record {
  wire = letter;
  mac = text letter_mac;
  pair_secret = secret;
  expected_dst = "a/y";
  clocks = clocks now;
}

verify_envelope-once_example :
    ◌≢◌
      (verify lib limits
        (arrival 9)
        (verify_all lib limits (arrival 8 ∷ []) (verify lib limits (arrival 7) []).1)).0
      (ok "hi")
unfolding run
verify_envelope-once_example =
    verify_envelope-once lib limits (arrival 7) (arrival 9) (arrival 8 ∷ []) [] "hi" "hi" refl
      (omega arith) (omega arith) (omega arith, tt) (omega arith) refl

abbrev own : Wire String
own = record letter { dst_l2_id = text "a/x" }

-- An envelope from the receiver to itself escapes the documented exception.
own_id_run :
    verify_envelope lib limits own (text letter_mac) secret "a/x" (clocks 7) [] ≡ (err uncaught, [])
unfolding run
own_id_run = refl

verify_envelope-failure_example :
    Explained lib own "a/x" uncaught
    × (((verify_envelope lib limits own (text letter_mac) secret "a/x" (clocks 7) []).1 ≡ [])
        ⊎ (uncaught ≡ rejected "replay"))
verify_envelope-failure_example =
    verify_envelope-failure lib limits own (text letter_mac) secret "a/x" (clocks 7) [] uncaught
      (ap (λ r. r.0) own_id_run)
