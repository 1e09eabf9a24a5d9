-- ===== src/Federation/Bits.antt =====
-- The bits of a byte and of a `bytearray`, as Python's `|`, `&` and `<<` have them.
use th_layer_agent.Common.{
  ℕ, zero, suc, ◌+◌, ◌*◌, ◌/◌, ◌%◌, ◌<◌, ◌≡◌, refl, ap, ◌∙◌, Bool, true, false, Option, none, some,
  List, [], ◌∷◌, nat_eq, length, if◌then◌else◌, arith, Bool-cases, inl, inr,
}

-- `n | 1 << k`
unfoldable pub or_bit : ℕ → ℕ → ℕ
or_bit zero n = if nat_eq (n % 2) 1 then n else suc n
or_bit (suc k) n = n % 2 + 2 * or_bit k (n / 2)

-- whether `n & 1 << k` is not zero
unfoldable pub has_bit : ℕ → ℕ → Bool
has_bit zero n = nat_eq (n % 2) 1
has_bit (suc k) n = has_bit k (n / 2)

-- `bitmap[i] & 1 << k`, where `none` is an IndexError
unfoldable pub test_bit : ℕ → ℕ → List ℕ → Option Bool
unfolding has_bit
test_bit i k [] = none
test_bit zero k (b ∷ bitmap) = some (has_bit k b)
test_bit (suc i) k (b ∷ bitmap) = test_bit i k bitmap

-- `bitmap[i] |= 1 << k`, where `none` is an IndexError
unfoldable pub set_bit : ℕ → ℕ → List ℕ → Option (List ℕ)
unfolding or_bit
set_bit i k [] = none
set_bit zero k (b ∷ bitmap) = some (or_bit k b ∷ bitmap)
set_bit (suc i) k (b ∷ bitmap) = elim (set_bit i k bitmap) [ none ↦ none | some r ↦ some (b ∷ r) ]

half : (n m : ℕ) → (n % 2 + 2 * m) / 2 ≡ m
half n m = omega arith

low : (n m : ℕ) → (n % 2 + 2 * m) % 2 ≡ n % 2
low n m = omega arith

half_suc : (n : ℕ) → nat_eq (n % 2) 1 ≡ false → suc n / 2 ≡ n / 2
half_suc n f = ground arith

has_bit-or_bit : (k n : ℕ) → has_bit k (or_bit k n) ≡ true
unfolding has_bit or_bit
has_bit-or_bit zero n = ground arith
has_bit-or_bit (suc k) n = ap (has_bit k) (half n (or_bit k (n / 2))) ∙ has_bit-or_bit k (n / 2)

or_bit-keeps : (k n j : ℕ) → has_bit j n ≡ true → has_bit j (or_bit k n) ≡ true
unfolding has_bit or_bit
or_bit-keeps zero n zero h = ground arith
or_bit-keeps zero n (suc j) h = elim (Bool-cases (nat_eq (n % 2) 1)) [
  | inl t ↦ rw t h
  | inr f ↦ rw f (ap (has_bit j) (half_suc n f) ∙ h)
]
or_bit-keeps (suc k) n zero h = ap (λ x. nat_eq x 1) (low n (or_bit k (n / 2))) ∙ h
or_bit-keeps (suc k) n (suc j) h =
    ap (has_bit j) (half n (or_bit k (n / 2))) ∙ or_bit-keeps k (n / 2) j h

keeps-head :
    (k b : ℕ) (bitmap : List ℕ) (j m : ℕ)
    → test_bit j m (b ∷ bitmap) ≡ some true
    → test_bit j m (or_bit k b ∷ bitmap) ≡ some true
unfolding test_bit
keeps-head k b bitmap zero m h = ap some (or_bit-keeps k b m cc)
keeps-head k b bitmap (suc j) m h = h

keeps-tail :
    (b : ℕ) (xs ys : List ℕ)
    → ((j m : ℕ) → test_bit j m xs ≡ some true → test_bit j m ys ≡ some true)
    → (j m : ℕ) → test_bit j m (b ∷ xs) ≡ some true
    → test_bit j m (b ∷ ys) ≡ some true
unfolding test_bit
keeps-tail b xs ys f zero m h = h
keeps-tail b xs ys f (suc j) m h = f j m h

-- Bit `k` of byte `i` is set by the write, and no bit is cleared by it.
pub set_bit-sets :
    (i k : ℕ) (bitmap : List ℕ)
    → i < length bitmap
    → (r : List ℕ) × (set_bit i k bitmap ≡ some r)
      × (length r ≡ length bitmap)
      × (test_bit i k r ≡ some true)
      × ((j m : ℕ) → test_bit j m bitmap ≡ some true → test_bit j m r ≡ some true)
unfolding set_bit test_bit
set_bit-sets i k [] h = absurd (omega arith)
set_bit-sets zero k (b ∷ bitmap) h =
    (or_bit k b ∷ bitmap, refl, refl, ap some (has_bit-or_bit k b), keeps-head k b bitmap)
set_bit-sets (suc i) k (b ∷ bitmap) h =
    let (r, e, l, s, m) = set_bit-sets i k bitmap (omega arith) in
    (b ∷ r, rw e refl, ap suc l, s, keeps-tail b bitmap r m)

pub test_bit-total :
    (i k : ℕ) (bitmap : List ℕ) → i < length bitmap → (b : Bool) × (test_bit i k bitmap ≡ some b)
unfolding test_bit
test_bit-total i k [] h = absurd (omega arith)
test_bit-total zero k (b ∷ bitmap) h = (has_bit k b, refl)
test_bit-total (suc i) k (b ∷ bitmap) h = test_bit-total i k bitmap (omega arith)
