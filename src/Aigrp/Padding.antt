-- ===== src/Aigrp/Padding.antt =====
-- The padding of base64url is removed and put back.
use text.Mathlib.TextLemmas.{nil-append, cons-append}
use Prim.Native.Char.{Char}
use th_layer_agent.Common.{ℕ, zero, suc, String, str_append, false, ◌≡◌, refl, ◌∙◌, ap, arith}
use th_layer_agent.Common.Splits.{has_char}
use th_layer_agent.Crypto.{equals_signs}
use th_layer_agent.Crypto.{rstrip_equals}

abbrev equals_char : Char
equals_char = "="

rstrip-equals : (n : ℕ) → rstrip_equals (equals_signs n) ≡ ""
unfolding rstrip_equals equals_signs
rstrip-equals zero = refl
rstrip-equals (suc n) =
    ap rstrip_equals (
      cons-append equals_char "" (equals_signs n)
      ∙ ap (λ t. String.◌∷◌ equals_char t) (nil-append (equals_signs n)))
    ∙ rw (rstrip-equals n) refl

pub rstrip-padding :
    (s : String) (n : ℕ) → has_char 61 s ≡ false → rstrip_equals (str_append s (equals_signs n)) ≡ s
unfolding rstrip_equals has_char
rstrip-padding String.[] n h = ap rstrip_equals (nil-append (equals_signs n)) ∙ rstrip-equals n
rstrip-padding (String.◌∷◌ c s) n h =
    ap rstrip_equals (cons-append c s (equals_signs n)) ∙ ground (arith, rstrip-padding s n)
