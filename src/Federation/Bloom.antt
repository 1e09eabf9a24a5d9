-- ===== src/Federation/Bloom.antt =====
-- aigrp/_legacy.py: the Bloom filter over the domains that a peer has units on.
use th_layer_agent.Common.{
  ℕ, zero, suc, ◌+◌, ◌*◌, ◌/◌, ◌%◌, String, ◌==◌, Bool, true, false, Option, none, some, List, [],
  ◌∷◌, map, take, drop, length, ltb, if◌then◌else◌,
}
use th_layer_agent.Merkle.{Bytes}
use th_layer_agent.Federation.Bits.{test_bit, set_bit}

abbrev pub bloom_bits : ℕ
bloom_bits = 8192

-- `int.from_bytes(b, "little")`
unfoldable pub from_bytes : Bytes → ℕ
from_bytes [] = 0
from_bytes (b ∷ bytes) = b + 256 * from_bytes bytes

-- `bytearray(n)`
unfoldable pub bytearray : ℕ → Bytes
bytearray zero = []
bytearray (suc n) = 0 ∷ bytearray n

-- `hashlib.sha256(...).digest()`, `str.encode`, `str.strip` and `str.lower`.
pub record Hashes : Type 0 where
  pub sha256 : Bytes → Bytes
  pub encode : String → Bytes
  pub strip : String → String
  pub lower : String → String

module _ (lib : Hashes) where
  -- `int.from_bytes(digest[i * 4 : i * 4 + 4], "little") % BLOOM_BITS`
  unfoldable pub bloom_hash : Bytes → ℕ → ℕ
  unfolding from_bytes
  bloom_hash digest i = from_bytes (take 4 (drop (i * 4) digest)) % bloom_bits

  -- `range(BLOOM_HASHES)` is written out
  unfoldable pub bloom_hashes : String → List ℕ
  unfolding bloom_hash
  bloom_hashes domain = map (bloom_hash (lib.sha256 (lib.encode domain))) (0 ∷ 1 ∷ 2 ∷ 3 ∷ 4 ∷ [])

  -- the loop over the hashes of one domain
  unfoldable pub add_hashes : List ℕ → Bytes → Option Bytes
  unfolding set_bit
  add_hashes [] bitmap = some bitmap
  add_hashes (h ∷ hashes) bitmap = elim (set_bit (h / 8) (h % 8) bitmap) [
    | none ↦ none
    | some b ↦ add_hashes hashes b
  ]

  -- the loop over the domains
  unfoldable pub add_domains : List String → Bytes → Option Bytes
  unfolding add_hashes bloom_hashes
  add_domains [] bitmap = some bitmap
  add_domains (d ∷ domains) bitmap =
      if d == ""
      then add_domains domains bitmap
      else elim (add_hashes (bloom_hashes (lib.lower (lib.strip d))) bitmap) [
        | none ↦ none
        | some b ↦ add_domains domains b
      ]

  -- `none` is an IndexError, here and below
  unfoldable pub compute_domain_bloom : List String → Option Bytes
  unfolding add_domains bytearray
  compute_domain_bloom domains = add_domains domains (bytearray (bloom_bits / 8))

  -- the loop over the hashes of the domain in question
  unfoldable pub all_set : List ℕ → Bytes → Option Bool
  unfolding test_bit
  all_set [] bloom = some true
  all_set (h ∷ hashes) bloom = elim (test_bit (h / 8) (h % 8) bloom) [
    | none ↦ none
    | some false ↦ some false
    | some true ↦ all_set hashes bloom
  ]

  unfoldable pub bloom_contains : Bytes → String → Option Bool
  unfolding all_set bloom_hashes
  bloom_contains [] domain = some false
  bloom_contains (b ∷ bloom) domain =
      if domain == ""
      then some false
      else if ltb (length (b ∷ bloom) * 8) bloom_bits
      then some false
      else all_set (bloom_hashes (lib.lower (lib.strip domain))) (b ∷ bloom)

  -- `any`, which stops at the first domain that is there
  unfoldable pub bloom_matches_any : Bytes → List String → Option Bool
  unfolding bloom_contains
  bloom_matches_any bloom [] = some false
  bloom_matches_any bloom (d ∷ domains) = elim (bloom_contains bloom d) [
    | none ↦ none
    | some true ↦ some true
    | some false ↦ bloom_matches_any bloom domains
  ]
