-- ===== src/Merkle/Levels.antt =====
-- One level of the loop of `merkle_root`, and why the loop ends at a single node.
use th_layer_agent.Common.{
  ℕ, zero, suc, ◌+◌, ◌/◌, ◌≤◌, ◌≡◌, refl, ap, List, [], ◌∷◌, arith, length, leb, if◌then◌else◌,
}
use th_layer_agent.Merkle.{Bytes, Hashing, hash_pair, pad, pair_up, reduce}

module _ (h : Hashing) where
  -- A level of the tree: neighbours are hashed together, an odd last node with itself.
  abbrev pub parents : List Bytes → List Bytes
  parents [] = []
  parents (a ∷ []) = hash_pair h a a ∷ []
  parents (a ∷ b ∷ level) = hash_pair h a b ∷ parents level

  pub length-parents : (level : List Bytes) → length (parents level) ≡ (length level + 1) / 2
  length-parents [] = refl
  length-parents (a ∷ []) = refl
  length-parents (a ∷ b ∷ level) = omega (arith, length-parents level)

  pad-cons : (a b : Bytes) (level : List Bytes) → pad h (a ∷ b ∷ level) ≡ a ∷ b ∷ pad h level
  unfolding pad
  pad-cons a b [] = refl
  pad-cons a b (c ∷ level) = ground arith

  -- Padding and pairing, as the loop does them, make the level of the parents.
  pub pair_up-pad : (level : List Bytes) → pair_up h (pad h level) ≡ parents level
  unfolding pair_up
  pair_up-pad [] = unfold pad in refl
  pair_up-pad (a ∷ []) = unfold pad in refl
  pair_up-pad (a ∷ b ∷ level) =
      rw (pad-cons a b level) (ap (λ l. hash_pair h a b ∷ l) (pair_up-pad level))

  pub reduce-suc :
      (fuel : ℕ) (level : List Bytes)
      → reduce h (suc fuel) level
        ≡ (if leb 2 (length level) then reduce h fuel (parents level) else level)
  reduce-suc fuel level = unfold reduce in rw (pair_up-pad level)

  -- The loop over the levels ends: with at least as many rounds as nodes, a level of at least one node
  -- is reduced to a single node.
  pub length-reduce :
      (fuel : ℕ) (level : List Bytes)
      → length level ≤ fuel
      → 1 ≤ length level
      → length (reduce h fuel level) ≡ 1
  length-reduce zero level fits some_node = absurd (omega arith)
  length-reduce (suc fuel) level fits some_node =
      rw (reduce-suc fuel level)
        (ground (arith, length-parents level, length-reduce fuel (parents level)))
