-- ===== src/Aigrp/PairSecret.antt =====
-- pair_secret.py: the secret of a pair of groups, derived from the Enterprise's root.
use th_layer_agent.Common.{ℕ, String, ◌||◌, ◌++◌, ◌==◌, if◌then◌else◌, nat_eq, length}
use th_layer_agent.Common.Exec.{Result, ok, err}
use th_layer_agent.Merkle.{Bytes}
use th_layer_agent.Reputation.DailyRoot.{text_lt}

-- The ValueErrors of this file.
pub data PairError : Type 0 where
  empty_id : PairError
  same_id : PairError
  bad_root : PairError

-- `sorted((a, b))`
unfoldable pub sorted_pair : String → String → String × String
sorted_pair a b = if text_lt b a then (b, a) else (a, b)

-- `encode` is `str.encode("utf-8")`.
module _ (encode : String → Bytes) where
  unfoldable pub lex_min_canonical : String → String → Result PairError Bytes
  unfolding sorted_pair
  lex_min_canonical l2_a_id l2_b_id =
      let pair = sorted_pair l2_a_id l2_b_id in
      if (l2_a_id == "") || (l2_b_id == "")
      then err empty_id
      else if l2_a_id == l2_b_id
      then err same_id
      else ok (encode "aigrp-pair:" ++ encode pair.0 ++ encode ":" ++ encode pair.1)

  -- `hkdf salt length root info` is HKDF-SHA256; the salt is the hash of "aigrp-pair-v1".
  unfoldable pub derive_pair_secret :
      (Bytes → ℕ → Bytes → Bytes → Bytes) → Bytes → Bytes → String → String → Result PairError Bytes
  unfolding lex_min_canonical
  derive_pair_secret hkdf salt enterprise_root l2_a_id l2_b_id =
      if nat_eq (length enterprise_root) 32
      then elim (lex_min_canonical l2_a_id l2_b_id) [
        | err e ↦ err e
        | ok info ↦ ok (hkdf salt 32 enterprise_root info)
      ]
      else err bad_root
