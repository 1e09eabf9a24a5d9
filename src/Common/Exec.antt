-- ===== src/Common/Exec.antt =====
-- Code that changes a state and may raise: what was written before the raise stays written, so the
-- state comes back beside the error too.
use mathlib.Core.Path.{◌≡◌, refl}
use mathlib.Core.Bool.{Bool, true, false}
use mathlib.Core.Option.{Option, none, some}
use mathlib.Core.Logic.{◌⊎◌, inl, inr}

pub data Result (E A : Type 0) : Type 0 where
  ok : A → Result E A
  err : E → Result E A

abbrev pub Exec : Type 0 → Type 0 → Type 0 → Type 0
Exec E S A = S → Result E A × S

module _ {E S : Type 0} where
  abbrev pub pure : {A : Type 0} → A → Exec E S A
  pure a s = (ok a, s)

  abbrev pub raise : {A : Type 0} → E → Exec E S A
  raise e s = (err e, s)

  abbrev pub get : Exec E S S
  get s = (ok s, s)

  abbrev pub put : S → Exec E S (Unit {0})
  put s' s = (ok tt, s')

  -- `if test: raise e`
  abbrev pub raise_if : Bool → E → Exec E S (Unit {0})
  raise_if test e s = (elim test [ true ↦ err e | false ↦ ok tt ], s)

  -- a value that may be absent, and the error where it is
  abbrev pub some_or : {A : Type 0} → Option A → E → Exec E S A
  some_or o e s = (elim o [ none ↦ err e | some a ↦ ok a ], s)

  -- a call that reads and writes no state
  abbrev pub from_result : {A : Type 0} → Result E A → Exec E S A
  from_result r s = (r, s)

  abbrev pub continue : {A B : Type 0} → (A → Exec E S B) → Result E A × S → Result E B × S
  continue f r = elim r.0 [ ok a ↦ f a r.1 | err e ↦ (err e, r.1) ]

  infixl 5 ◌>>=◌ ◌>>◌
  abbrev pub ◌>>=◌ : {A B : Type 0} → Exec E S A → (A → Exec E S B) → Exec E S B
  ◌>>=◌ m f s = continue f (m s)

  abbrev pub ◌>>◌ : {A B : Type 0} → Exec E S A → Exec E S B → Exec E S B
  ◌>>◌ m n s = continue (λ _. n) (m s)

pub ok_inj : {E A : Type 0} {a b : A} → ◌≡◌ {A = Result E A} (ok a) (ok b) → a ≡ b
ok_inj e = cc

pub ok≢err : {E A : Type 0} {a : A} {e : E} → ◌≡◌ {A = Result E A} (ok a) (err e) → ⊥
ok≢err p = cc

pub Result-cases :
    {E A : Type 0} (r : Result E A) → ((a : A) × (r ≡ ok a)) ⊎ ((e : E) × (r ≡ err e))
Result-cases (ok a) = inl (a, refl)
Result-cases (err e) = inr (e, refl)
