-- ===== src/Merkle/Binding.antt =====
-- Two lists of as many leaves with one root: the leaves are the same, or two byte strings with one
-- SHA-256 digest are exhibited.
use th_layer_agent.Common.{
  ℕ, zero, suc, ◌≤◌, ◌≡◌, ◌≢◌, ◌⊎◌, inl, inr, refl, sym, ap, ◌∙◌, List, [], ◌∷◌, ◌++◌, String, some,
  arith, length, All, leb, Bool-cases, str_append, Option-cases, some_inj,
}
use mathlib.Core.Path.{ap₂}
use text.Mathlib.TextLemmas.{append_cancel_left}
use native.Mathlib.Decide.{ℕ_discrete}
use th_layer_agent.Merkle.{
  Bytes, Hashing, IsHashing, first, hash_pair, reduce, strip_all, merkle_root, root_text,
}
use th_layer_agent.Merkle.Levels.{parents, length-parents, reduce-suc, length-reduce}
use th_layer_agent.Merkle.Tree.{merkle_root-decoded}

-- Two byte strings with one digest.
pub record Collision (h : Hashing) : Type 0 where
  pub left : Bytes
  pub right : Bytes
  pub differ : left ≢ right
  pub same_digest : h.sha256 left ≡ h.sha256 right

abbrev pub IsDigest : Bytes → Type 0
IsDigest b = length b ≡ 32

Bytes-discrete : Discrete Bytes
Bytes-discrete = hlevel ℕ_discrete

cons_inj {ℓ} : {A : Type ℓ} {x y : A} {xs ys : List A} → x ∷ xs ≡ y ∷ ys → (x ≡ y) × (xs ≡ ys)
cons_inj e = (cc, cc)

append_inj : (a b c d : Bytes) → length a ≡ length c → a ++ b ≡ c ++ d → (a ≡ c) × (b ≡ d)
append_inj [] b [] d n e = (refl, e)
append_inj [] b (x ∷ c) d n e = absurd (omega arith)
append_inj (x ∷ a) b [] d n e = absurd (omega arith)
append_inj (x ∷ a) b (y ∷ c) d n e =
    let (head, tail) = cons_inj e in
    let (front, rest) = append_inj a b c d (omega arith) tail in (ap₂ ◌∷◌ head front, rest)

module _ (h : Hashing) where
  hash_pair_inj :
      (a b c d : Bytes)
      → length a ≡ length c
      → hash_pair h a b ≡ hash_pair h c d
      → (a ≡ c) × (b ≡ d) ⊎ Collision h
  unfolding hash_pair
  hash_pair_inj a b c d n e = elim (Bytes-discrete (a ++ b) (c ++ d)) [
    | yes same ↦ inl (append_inj a b c d n same)
    | no other ↦ inr (record { left = a ++ b; right = c ++ d; differ = other; same_digest = e })
  ]

  parents_inj :
      (xs ys : List Bytes)
      → length xs ≡ length ys
      → All IsDigest xs
      → All IsDigest ys
      → parents h xs ≡ parents h ys
      → (xs ≡ ys) ⊎ Collision h
  parents_inj [] [] n dx dy e = inl refl
  parents_inj [] (y ∷ ys) n dx dy e = absurd (omega arith)
  parents_inj (x ∷ xs) [] n dx dy e = absurd (omega arith)
  parents_inj (x ∷ []) (y ∷ []) n dx dy e =
      elim (hash_pair_inj x x y y (dx.0 ∙ sym dy.0) (cons_inj e).0) [
        | inl (same, _) ↦ inl (ap (λ a. a ∷ []) same)
        | inr found ↦ inr found
      ]
  parents_inj (x ∷ []) (y ∷ z ∷ ys) n dx dy e = absurd (omega arith)
  parents_inj (x ∷ z ∷ xs) (y ∷ []) n dx dy e = absurd (omega arith)
  parents_inj (x ∷ x' ∷ xs) (y ∷ y' ∷ ys) n dx dy e =
      elim (hash_pair_inj x x' y y' (dx.0 ∙ sym dy.0) (cons_inj e).0) [
        | inr found ↦ inr found
        | inl (same, same') ↦ elim (parents_inj xs ys (omega arith) dx.1.1 dy.1.1 (cons_inj e).1) [
          | inr found ↦ inr found
          | inl rest ↦ inl (ap₂ ◌∷◌ same (ap₂ ◌∷◌ same' rest))
        ]
      ]

module _ (h : Hashing) (law : IsHashing h) where
  parents-IsDigest : (level : List Bytes) → All IsDigest (parents h level)
  parents-IsDigest [] = tt
  parents-IsDigest (a ∷ []) = (unfold hash_pair in law.digest_length _, tt)
  parents-IsDigest (a ∷ b ∷ level) =
      (unfold hash_pair in law.digest_length _, parents-IsDigest level)

  reduce_inj :
      (fuel : ℕ) (xs ys : List Bytes)
      → length xs ≡ length ys
      → All IsDigest xs
      → All IsDigest ys
      → reduce h fuel xs ≡ reduce h fuel ys
      → (xs ≡ ys) ⊎ Collision h
  reduce_inj zero xs ys n dx dy e = inl (unfold reduce in e)
  reduce_inj (suc fuel) xs ys n dx dy e =
      let e' = sym (reduce-suc h fuel xs) ∙ e ∙ reduce-suc h fuel ys in
      elim (Bool-cases (leb 2 (length xs))) [
        | inr one ↦ inl (rw (← n, one) at e')
        | inl many ↦
            elim (reduce_inj fuel (parents h xs) (parents h ys)
              (omega (arith, length-parents h xs, length-parents h ys)) (parents-IsDigest xs)
              (parents-IsDigest ys) (rw (← n, many) at e')) [
                | inr found ↦ inr found
                | inl same ↦ parents_inj h xs ys n dx dy same
              ]
      ]

  text_inj :
      (a b : Bytes) → str_append "sha256:" (h.to_hex a) ≡ str_append "sha256:" (h.to_hex b) → a ≡ b
  text_inj a b e = cc (
    append_cancel_left "sha256:" (h.to_hex a) (h.to_hex b) e,
    law.from_hex-to_hex a,
    law.from_hex-to_hex b,
  )

  one_inj : (xs ys : List Bytes) → length xs ≡ 1 → length ys ≡ 1 → first xs ≡ first ys → xs ≡ ys
  one_inj [] ys p q e = absurd (omega arith)
  one_inj (x ∷ xs) [] p q e = absurd (omega arith)
  one_inj (x ∷ []) (y ∷ []) p q e = ap (λ a. a ∷ []) e
  one_inj (x ∷ []) (y ∷ z ∷ ys) p q e = absurd (omega arith)
  one_inj (x ∷ z ∷ xs) (y ∷ ys) p q e = absurd (omega arith)

module _ (h : Hashing) where
  pub length-strip_all :
      (leaves : List String) {level : List Bytes}
      → strip_all h leaves ≡ some level
      → length level ≡ length leaves
  unfolding strip_all
  length-strip_all [] {level} e = ground arith
  length-strip_all (leaf ∷ leaves) {level} e = elim (Option-cases (strip_all h leaves)) [
    | inl none_eq ↦ ground arith
    | inr (rest, some_eq) ↦ ground (arith, length-strip_all leaves some_eq)
  ]

module _ (h : Hashing) (law : IsHashing h) where
  -- Two lists of as many leaves, whose leaves decode to 32 bytes each, have one Merkle root only if
  -- they decode to the same digests, or else two different byte strings with one SHA-256 digest are
  -- found.
  pub merkle_root-binding :
      (leaves leaves' : List String) (level level' : List Bytes)
      → strip_all h leaves ≡ some level
      → strip_all h leaves' ≡ some level'
      → All IsDigest level
      → All IsDigest level'
      → length leaves ≡ length leaves'
      → merkle_root h leaves ≡ merkle_root h leaves'
      → (level ≡ level') ⊎ Collision h
  merkle_root-binding [] [] level level' d d' a a' n e = inl (unfold strip_all in cc)
  merkle_root-binding [] (leaf ∷ leaves) level level' d d' a a' n e = absurd (omega arith)
  merkle_root-binding (leaf ∷ leaves) [] level level' d d' a a' n e = absurd (omega arith)
  merkle_root-binding (leaf ∷ leaves) (leaf' ∷ leaves') level level' d d' a a' n e =
      let sizes : length level ≡ length level' =
        omega
          (arith, length-strip_all h (leaf ∷ leaves) d, length-strip_all h (leaf' ∷ leaves') d') in
      let some_leaf : 1 ≤ length level = omega (arith, length-strip_all h (leaf ∷ leaves) d) in
      let texts : root_text h (reduce h (length level) level)
          ≡ root_text h (reduce h (length level') level') =
        some_inj (
          sym (merkle_root-decoded h leaf leaves level d)
          ∙ e
          ∙ merkle_root-decoded h leaf' leaves' level' d') in
      let texts' : root_text h (reduce h (length level) level)
          ≡ root_text h (reduce h (length level) level') =
        rw (← sizes) at texts in
      reduce_inj h law (length level) level level' sizes a a' (
        one_inj h law _ _ (length-reduce h (length level) level (omega arith) some_leaf)
          (length-reduce h (length level) level' (omega arith) (omega arith))
          (text_inj h law _ _ texts'))
