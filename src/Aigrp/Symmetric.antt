-- ===== src/Aigrp/Symmetric.antt =====
-- The two groups of a pair derive the same secret, each from its own side.
use th_layer_agent.Common.{
  ℕ, String, false, ◌≡◌, refl, ◌==◌, arith, Bool-cases, inl, inr, str_eq-sym,
}
use th_layer_agent.Common.Texts.{text_lt-asym, text_lt-total}
use th_layer_agent.Merkle.{Bytes}
use th_layer_agent.Aigrp.PairSecret.{sorted_pair, lex_min_canonical, derive_pair_secret}

sorted_pair-sym : (a b : String) → a == b ≡ false → sorted_pair a b ≡ sorted_pair b a
unfolding sorted_pair
sorted_pair-sym a b n = ground (arith, text_lt-asym a b, text_lt-total a b)

module _ (encode : String → Bytes) where
  lex_min-sym : (a b : String) → lex_min_canonical encode a b ≡ lex_min_canonical encode b a
  unfolding lex_min_canonical
  lex_min-sym a b = elim (Bool-cases (a == b)) [
    | inl t ↦ ground (arith, str_eq-sym a b)
    | inr f ↦ let same = sorted_pair-sym a b f in ground (arith, str_eq-sym a b)
  ]

  -- The order of the two ids makes no difference to the secret, or to the error.
  pub derive_pair_secret-sym :
      (hkdf : Bytes → ℕ → Bytes → Bytes → Bytes) (salt root : Bytes) (a b : String)
      → derive_pair_secret encode hkdf salt root a b ≡ derive_pair_secret encode hkdf salt root b a
  unfolding derive_pair_secret
  derive_pair_secret-sym hkdf salt root a b = rw (lex_min-sym a b) refl
