-- ===== src/Federation/Claimed.antt =====
-- aigrp/_legacy.py: what a Bloom filter claims of the domains that it is built from.
use th_layer_agent.Common.{
  ℕ, zero, suc, ◌*◌, ◌/◌, ◌%◌, ◌<◌, ◌≡◌, refl, sym, ap, subst, ◌∙◌, String, ◌==◌, Bool, true, false,
  some, List, [], ◌∷◌, map, length, ltb, In, arith, inl, inr, Bool-cases,
}
use th_layer_agent.Merkle.{Bytes}
use th_layer_agent.Federation.Bits.{test_bit, set_bit-sets, test_bit-total}
use th_layer_agent.Federation.Bloom.{
  Hashes, bloom_bits, bytearray, bloom_hash, bloom_hashes, add_hashes, add_domains,
  compute_domain_bloom, all_set, bloom_contains,
}

-- Each of the bits is set.
abbrev HasAll : List ℕ → Bytes → Type 0
HasAll hashes bitmap = (h : ℕ) → In h hashes → test_bit (h / 8) (h % 8) bitmap ≡ some true

-- No bit of the first is lost in the second.
abbrev Keeps : Bytes → Bytes → Type 0
Keeps a b = (j m : ℕ) → test_bit j m a ≡ some true → test_bit j m b ≡ some true

abbrev IsFull : Bytes → Type 0
IsFull bitmap = length bitmap ≡ 1024

length-bytearray : (n : ℕ) → length (bytearray n) ≡ n
unfolding bytearray
length-bytearray zero = refl
length-bytearray (suc n) = ap suc (length-bytearray n)

full_size : (n : ℕ) → n ≡ 1024 → ltb (n * 8) bloom_bits ≡ false
full_size n l = ground arith

enough : (h n : ℕ) → h < bloom_bits → ltb (n * 8) bloom_bits ≡ false → h / 8 < n
enough h n b l = ground arith

module _ (lib : Hashes) where
  map-below :
      (digest : Bytes) (is : List ℕ) (h : ℕ)
      → In h (map (bloom_hash lib digest) is)
      → h < bloom_bits
  unfolding bloom_hash
  map-below digest [] h i = absurd i
  map-below digest (j ∷ is) h (inl e) = omega (arith, e)
  map-below digest (j ∷ is) h (inr i) = map-below digest is h i

  bloom_hashes-below : (d : String) (h : ℕ) → In h (bloom_hashes lib d) → h < bloom_bits
  unfolding bloom_hashes
  bloom_hashes-below d h i = map-below (lib.sha256 (lib.encode d)) (0 ∷ 1 ∷ 2 ∷ 3 ∷ 4 ∷ []) h i

  all_set-HasAll :
      (hashes : List ℕ) (b : Bytes) → HasAll hashes b → all_set lib hashes b ≡ some true
  unfolding all_set
  all_set-HasAll [] b f = refl
  all_set-HasAll (h ∷ hashes) b f =
      rw (all_set, f h (inl refl)) (all_set-HasAll hashes b (λ g i. f g (inr i)))

  add_hashes-HasAll :
      (hashes : List ℕ) (bitmap : Bytes)
      → IsFull bitmap
      → ((h : ℕ) → In h hashes → h < bloom_bits)
      → (r : Bytes) × (add_hashes lib hashes bitmap ≡ some r)
        × IsFull r
        × Keeps bitmap r
        × HasAll hashes r
  unfolding add_hashes
  add_hashes-HasAll [] bitmap l below = (bitmap, refl, l, (λ j m t. t), (λ h i. absurd i))
  add_hashes-HasAll (h ∷ hashes) bitmap l below =
      let bound = below h (inl refl) in
      let (b, e, lb, s, k) = set_bit-sets (h / 8) (h % 8) bitmap (omega (arith, bound, l)) in
      let (r, er, lr, kr, a) = add_hashes-HasAll hashes b (lb ∙ l) (λ g i. below g (inr i)) in
      (
        r,
        rw (add_hashes, e) er,
        lr,
        (λ j m t. kr j m (k j m t)),
        (λ g i. elim i [
          | inl eq ↦ subst (λ x. test_bit (x / 8) (x % 8) r ≡ some true) eq (kr (h / 8) (h % 8) s)
          | inr j ↦ a g j
        ]),
      )

  abbrev normal : String → String
  normal d = lib.lower (lib.strip d)

  -- The hashes of each domain that is not empty are set.
  abbrev HasDomains : List String → Bytes → Type 0
  HasDomains domains b =
      (d : String) → In d domains → d == "" ≡ false → HasAll (bloom_hashes lib (normal d)) b

  add_domains-HasDomains :
      (domains : List String) (bitmap : Bytes)
      → IsFull bitmap
      → (r : Bytes) × (add_domains lib domains bitmap ≡ some r)
        × IsFull r
        × Keeps bitmap r
        × HasDomains domains r
  unfolding add_domains
  add_domains-HasDomains [] bitmap l = (bitmap, refl, l, (λ j m t. t), (λ d i. absurd i))
  add_domains-HasDomains (d ∷ domains) bitmap l = elim (Bool-cases (d == "")) [
    | inl t ↦
        let (r, e, lr, k, a) = add_domains-HasDomains domains bitmap l in
        (r, rw t e, lr, k, (λ x i n. elim i [ inl eq ↦ absurd cc | inr j ↦ a x j n ]))
    | inr f ↦
        let (b, e, lb, kb, s) =
          add_hashes-HasAll (bloom_hashes lib (normal d)) bitmap l
            (bloom_hashes-below (normal d)) in
        let (r, er, lr, k, a) = add_domains-HasDomains domains b lb in
        (
          r,
          rw (f, e) er,
          lr,
          (λ j m t. k j m (kb j m t)),
          (λ x i n. elim i [
            | inl eq ↦
                subst (λ y. HasAll (bloom_hashes lib (normal y)) r) eq
                  (λ h m. k (h / 8) (h % 8) (s h m))
            | inr j ↦ a x j n
          ]),
        )
  ]

  bloom_contains-HasAll :
      (b : Bytes) (q : String)
      → IsFull b
      → q == "" ≡ false
      → HasAll (bloom_hashes lib (normal q)) b
      → bloom_contains lib b q ≡ some true
  unfolding bloom_contains
  bloom_contains-HasAll [] q l n a = absurd (omega (arith, l))
  bloom_contains-HasAll (x ∷ b) q l n a =
      rw (n, full_size (length (x ∷ b)) l) (all_set-HasAll (bloom_hashes lib (normal q)) (x ∷ b) a)

  all_set-total :
      (hashes : List ℕ) (b : Bytes)
      → ltb (length b * 8) bloom_bits ≡ false
      → ((h : ℕ) → In h hashes → h < bloom_bits)
      → (r : Bool) × (all_set lib hashes b ≡ some r)
  unfolding all_set
  all_set-total [] b l below = (true, refl)
  all_set-total (h ∷ hashes) b l below =
      let (t, e) = test_bit-total (h / 8) (h % 8) b (enough h (length b) (below h (inl refl)) l) in
      elim (Bool-cases t) [
        | inl y ↦
            let (r, er) = all_set-total hashes b l (λ g i. below g (inr i)) in
            (r, rw (all_set, e, y) er)
        | inr n ↦ (false, rw (all_set, e, n) refl)
      ]

  -- The test of a domain ends without an IndexError.
  pub bloom_contains-total :
      (b : Bytes) (d : String) → (r : Bool) × (bloom_contains lib b d ≡ some r)
  unfolding bloom_contains
  bloom_contains-total [] d = (false, refl)
  bloom_contains-total (x ∷ b) d = elim (Bool-cases (d == "")) [
    | inl t ↦ (false, rw t refl)
    | inr f ↦ elim (Bool-cases (ltb (length (x ∷ b) * 8) bloom_bits)) [
      | inl t ↦ (false, rw (f, t) refl)
      | inr l ↦
          let (r, e) =
            all_set-total (bloom_hashes lib (normal d)) (x ∷ b) l (bloom_hashes-below (normal d)) in
          (r, rw (f, l) e)
    ]
  ]

  -- The filter over a list of domains is built without an exception, and it claims every text that
  -- is not empty and has, stripped and lowered, the same form as one of the domains that are not
  -- empty.
  pub compute_domain_bloom-contains :
      (domains : List String) (d q : String)
      → In d domains
      → d == "" ≡ false
      → q == "" ≡ false
      → lib.lower (lib.strip q) ≡ lib.lower (lib.strip d)
      → (bloom : Bytes) × (compute_domain_bloom lib domains ≡ some bloom)
        × (bloom_contains lib bloom q ≡ some true)
  unfolding compute_domain_bloom
  compute_domain_bloom-contains domains d q i nd nq same =
      let (r, e, l, k, a) =
        add_domains-HasDomains domains (bytearray 1024) (length-bytearray 1024) in
      (
        r,
        e,
        bloom_contains-HasAll r q l nq
            (subst (λ x. HasAll (bloom_hashes lib x) r) (sym same) (a d i nd)),
      )
