-- ===== src/Common/Texts.antt =====
-- The order of texts is asymmetric.
use Prim.Native.Nat.{ℕ, Ordering, compare as compare_ℕ}
use Prim.Native.Char.{code}
use Prim.Native.String.compare
use Prim.Native.String.{String, then, compare}
use mathlib.Core.Path.{◌≡◌, refl, sym, ap, ◌∙◌}
use mathlib.Core.Bool.{true, false}
use text.Mathlib.Text.{is_lt, is_eq}
use native.Mathlib.Omega.{arith}

flip : Ordering → Ordering
flip Ordering.lt = Ordering.gt
flip Ordering.eq = Ordering.eq
flip Ordering.gt = Ordering.lt

flip-then : (o p : Ordering) → then (flip o) (flip p) ≡ flip (then o p)
unfolding flip
flip-then Ordering.lt p = refl
flip-then Ordering.eq p = refl
flip-then Ordering.gt p = refl

compare_ℕ-flip : (m n : ℕ) → compare_ℕ m n ≡ flip (compare_ℕ n m)
unfolding flip
compare_ℕ-flip m n = ground arith

compare-flip : (a b : String) → compare a b ≡ flip (compare b a)
unfolding flip
compare-flip String.[] String.[] = compare.nil-nil ∙ ap flip (sym compare.nil-nil)
compare-flip String.[] (String.◌∷◌ d t) =
    compare.nil-cons d t ∙ ap flip (sym (compare.cons-nil d t))
compare-flip (String.◌∷◌ c s) String.[] =
    compare.cons-nil c s ∙ ap flip (sym (compare.nil-cons c s))
compare-flip (String.◌∷◌ c s) (String.◌∷◌ d t) =
    compare.cons-cons c d s t
    ∙ (λ i. then (compare_ℕ-flip (code c) (code d) i) (compare-flip s t i))
    ∙ flip-then (compare_ℕ (code d) (code c)) (compare t s)
    ∙ ap flip (sym (compare.cons-cons d c t s))

is_lt-flip : (o : Ordering) → is_lt o ≡ true → is_lt (flip o) ≡ true → ⊥
unfolding flip
is_lt-flip Ordering.lt h k = ground arith
is_lt-flip Ordering.eq h k = ground arith
is_lt-flip Ordering.gt h k = ground arith

pub text_lt-asym : (a b : String) → is_lt (compare a b) ≡ true → is_lt (compare b a) ≡ true → ⊥
text_lt-asym a b h k = is_lt-flip (compare b a) k (sym (ap is_lt (compare-flip a b)) ∙ h)

is_gt-flip : (o : Ordering) → is_eq o ≡ false → is_lt o ≡ false → is_lt (flip o) ≡ true
unfolding flip
is_gt-flip Ordering.lt h k = ground arith
is_gt-flip Ordering.eq h k = ground arith
is_gt-flip Ordering.gt h k = refl

pub text_lt-total :
    (a b : String)
    → is_eq (compare a b) ≡ false
    → is_lt (compare a b) ≡ false
    → is_lt (compare b a) ≡ true
text_lt-total a b h k = ap is_lt (compare-flip b a) ∙ is_gt-flip (compare a b) h k
