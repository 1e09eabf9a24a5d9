-- ===== src/Common/Splits.antt =====
-- The methods of Python's `str` that split a text at a character, over the characters.
use Prim.Native.Char.{Char, code}
use Prim.Native.String.{String, ◌∷◌ as str_cons}
use Prim.Native.Nat.{ℕ, suc}
use mathlib.Core.Path.{◌≡◌, refl}
use mathlib.Core.Bool.{Bool, true, false, ◌||◌, ◌&&◌}
use mathlib.Core.Option.{Option, none, some}
use th_layer_agent.Common.Tests.{nat_eq, if◌then◌else◌, Bool-cases, ltb}
use mathlib.Core.Logic.{inl, inr}
use native.Mathlib.Omega.{arith}

with_head : Char → Option (String × String) → Option (String × String)
with_head c none = none
with_head c (some (a, b)) = some (str_cons c a, b)

-- `s.split(c, 1)` where it has two parts, and `s.partition(c)` where the separator is found
unfoldable pub split_once : ℕ → String → Option (String × String)
unfolding with_head
split_once c String.[] = none
split_once c (String.◌∷◌ d s) =
    if nat_eq (code d) c then some ("", s) else with_head d (split_once c s)

-- `c in s`
unfoldable pub has_char : ℕ → String → Bool
has_char c String.[] = false
has_char c (String.◌∷◌ d s) = nat_eq (code d) c || has_char c s

-- `s.startswith(c)`
abbrev pub starts_with_char : ℕ → String → Bool
starts_with_char c String.[] = false
starts_with_char c (String.◌∷◌ d s) = nat_eq (code d) c

-- `s.endswith(c)`
unfoldable pub ends_with_char : ℕ → String → Bool
ends_with_char c String.[] = false
ends_with_char c (String.◌∷◌ d String.[]) = nat_eq (code d) c
ends_with_char c (String.◌∷◌ d (String.◌∷◌ e s)) = ends_with_char c (String.◌∷◌ e s)

with_head-none : (c : Char) (o : Option (String × String)) → with_head c o ≡ none → o ≡ none
unfolding with_head
with_head-none c none e = refl
with_head-none c (some (a, b)) e = absurd cc

pub split_once-has_char : (c : ℕ) (s : String) → has_char c s ≡ true → split_once c s ≡ none → ⊥
unfolding has_char split_once
split_once-has_char c String.[] h e = cc
split_once-has_char c (String.◌∷◌ d s) h e = elim (Bool-cases (nat_eq (code d) c)) [
  | inl t ↦ ground arith
  | inr f ↦
      split_once-has_char c s (ground arith) (with_head-none d (split_once c s) (ground arith))
]

-- `len(s)`
unfoldable pub len : String → ℕ
len String.[] = 0
len (String.◌∷◌ d s) = suc (len s)

-- `s.isascii()`
unfoldable pub is_ascii : String → Bool
is_ascii String.[] = true
is_ascii (String.◌∷◌ d s) = ltb (code d) 128 && is_ascii s

-- `s.startswith(prefix)`
unfoldable pub starts_with : String → String → Bool
starts_with String.[] s = true
starts_with (String.◌∷◌ c p) String.[] = false
starts_with (String.◌∷◌ c p) (String.◌∷◌ d s) = nat_eq (code c) (code d) && starts_with p s
