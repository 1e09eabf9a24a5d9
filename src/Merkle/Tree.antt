-- ===== src/Merkle/Tree.antt =====
-- The loop of `merkle_root` against a definition by halves, as the trees of transparency logs are
-- described: a tree of depth k splits its leaves at the power of two below, and a half that is
-- absent repeats the other one.
use native.Mathlib.Decide.{dec_le}
use mathlib.Core.Path.{ap₂}
use th_layer_agent.Common.{
  ℕ, zero, suc, ◌+◌, ◌≤◌, ◌≡◌, refl, ap, List, [], ◌∷◌, arith, length, take-nil, drop-nil, last_or,
  take, drop, leb, if◌then◌else◌, sym, ◌∙◌, String, ◌<◌, some, true, length-take, length-drop,
}
use th_layer_agent.Merkle.{Bytes, Hashing, hash_pair, reduce, strip_all, merkle_root, root_text}
use th_layer_agent.Merkle.Levels.{parents, length-parents, reduce-suc}

abbrev double : ℕ → ℕ
double zero = zero
double (suc n) = suc (suc (double n))

double_lem : (n : ℕ) → double n ≡ n + n
double_lem zero = refl
double_lem (suc n) = omega (arith, double_lem n)

-- 2 ^ k: the most leaves that a tree of depth k holds
abbrev pub width : ℕ → ℕ
width zero = 1
width (suc k) = double (width k)

-- the most leaves that a tree one level lower holds, and no leaf below depth 0
abbrev pub width_below : ℕ → ℕ
width_below zero = 0
width_below (suc k) = width k

width-pos : (k : ℕ) → 1 ≤ width k
width-pos zero = omega arith
width-pos (suc k) = omega (arith, width-pos k, double_lem (width k))

module _ (h : Hashing) where
  -- The root of a tree of depth k, by halves.
  unfoldable pub tree_root : ℕ → List Bytes → Bytes
  tree_root zero level = last_or [] level
  tree_root (suc k) level =
      let whole = tree_root k level in
      let left = tree_root k (take (width k) level) in
      let right = tree_root k (drop (width k) level) in
      if leb (length level) (width k) then hash_pair h whole whole else hash_pair h left right

  parents-take :
      (m : ℕ) (level : List Bytes) → parents h (take (double m) level) ≡ take m (parents h level)
  parents-take zero level = refl
  parents-take (suc m) [] = refl
  parents-take (suc m) (a ∷ []) = ap (λ l. hash_pair h a a ∷ l) (sym (take-nil m))
  parents-take (suc m) (a ∷ b ∷ level) = ap (λ l. hash_pair h a b ∷ l) (parents-take m level)

  parents-drop :
      (m : ℕ) (level : List Bytes) → parents h (drop (double m) level) ≡ drop m (parents h level)
  parents-drop zero level = refl
  parents-drop (suc m) [] = refl
  parents-drop (suc m) (a ∷ []) = sym (drop-nil m)
  parents-drop (suc m) (a ∷ b ∷ level) = parents-drop m level

  tree_root-half :
      (k : ℕ) (level : List Bytes)
      → length level ≤ width k
      → tree_root (suc k) level ≡ hash_pair h (tree_root k level) (tree_root k level)
  unfolding tree_root
  tree_root-half k level fits = ground arith

  tree_root-halves :
      (k : ℕ) (level : List Bytes)
      → width k < length level
      → tree_root (suc k) level
        ≡ hash_pair h (tree_root k (take (width k) level)) (tree_root k (drop (width k) level))
  unfolding tree_root
  tree_root-halves k level over = ground arith

  -- One level of the loop takes a tree of depth k + 1 to the tree of depth k above it.
  pub tree_root-parents :
      (k : ℕ) (level : List Bytes)
      → 1 ≤ length level
      → length level ≤ width (suc k)
      → tree_root (suc k) level ≡ tree_root k (parents h level)
  tree_root-parents zero [] p q = absurd (omega arith)
  tree_root-parents zero (a ∷ []) p q = unfold tree_root in refl
  tree_root-parents zero (a ∷ b ∷ []) p q = unfold tree_root in refl
  tree_root-parents zero (a ∷ b ∷ c ∷ level) p q = absurd (omega arith)
  tree_root-parents (suc k) level p q = elim (dec_le (length level) (width (suc k))) [
    | yes small ↦
        tree_root-half (suc k) level small
        ∙ ap (λ r. hash_pair h r r) (tree_root-parents k level p small)
        ∙ sym (
            tree_root-half k (parents h level)
              (omega (arith, length-parents h level, double_lem (width k))))
    | no large ↦
        tree_root-halves (suc k) level (omega arith)
        ∙ ap₂ (hash_pair h)
            (tree_root-parents k (take (double (width k)) level)
                (omega
                  (arith, length-take (double (width k)) level, width-pos k, double_lem (width k)))
                (omega (arith, length-take (double (width k)) level))
              ∙ ap (tree_root k) (parents-take (width k) level))
            (tree_root-parents k (drop (double (width k)) level)
                (omega (arith, length-drop (double (width k)) level))
                (omega (arith, length-drop (double (width k)) level, double_lem (double (width k))))
              ∙ ap (tree_root k) (parents-drop (width k) level))
        ∙ sym (
            tree_root-halves k (parents h level)
              (omega (arith, length-parents h level, double_lem (width k))))
  ]

  pub reduce-eq-tree_root :
      (k fuel : ℕ) (level : List Bytes)
      → length level ≤ fuel
      → width_below k < length level
      → length level ≤ width k
      → reduce h fuel level ≡ tree_root k level ∷ []
  reduce-eq-tree_root zero zero level enough over fits = absurd (omega arith)
  reduce-eq-tree_root (suc k) zero level enough over fits = absurd (omega arith)
  reduce-eq-tree_root zero (suc fuel) [] enough over fits = absurd (omega arith)
  reduce-eq-tree_root zero (suc fuel) (a ∷ []) enough over fits = unfold reduce tree_root in refl
  reduce-eq-tree_root zero (suc fuel) (a ∷ b ∷ level) enough over fits = absurd (omega arith)
  reduce-eq-tree_root (suc k) (suc fuel) level enough over fits =
      reduce-suc h fuel level
      ∙ rw (more k level over) (
          reduce-eq-tree_root k fuel (parents h level)
            (omega (arith, length-parents h level, width-pos k)) (below k level over)
            (omega (arith, length-parents h level, double_lem (width k)))
          ∙ ap (λ r. r ∷ []) (sym (tree_root-parents k level (omega arith) fits)))
    where
      more : (k : ℕ) (level : List Bytes) → width k < length level → leb 2 (length level) ≡ true
      more k level over = ground (arith, width-pos k)

      below :
          (k : ℕ) (level : List Bytes)
          → width k < length level
          → width_below k < length (parents h level)
      below zero level over = omega (arith, length-parents h level)
      below (suc k) level over = omega (arith, length-parents h level, double_lem (width k))

  pub merkle_root-decoded :
      (leaf : String) (leaves : List String) (level : List Bytes)
      → strip_all h (leaf ∷ leaves) ≡ some level
      → merkle_root h (leaf ∷ leaves) ≡ some (root_text h (reduce h (length level) level))
  unfolding merkle_root
  merkle_root-decoded leaf leaves level decoded = ground arith

  -- The Merkle root of leaves that decode is the root of the tree by halves of the least depth that
  -- holds them, in the form sha256:<hex>.
  pub merkle_root-eq-tree_root :
      (k : ℕ) (leaves : List String) (level : List Bytes)
      → strip_all h leaves ≡ some level
      → width_below k < length level
      → length level ≤ width k
      → merkle_root h leaves ≡ some (root_text h (tree_root k level ∷ []))
  merkle_root-eq-tree_root k [] [] decoded over fits = absurd (omega arith)
  merkle_root-eq-tree_root k [] (a ∷ level) decoded over fits = unfold strip_all in cc
  merkle_root-eq-tree_root k (leaf ∷ leaves) level decoded over fits =
      merkle_root-decoded leaf leaves level decoded
      ∙ ap (λ r. some (root_text h r))
          (reduce-eq-tree_root k (length level) level (omega arith) over fits)
