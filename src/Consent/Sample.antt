-- ===== src/Consent/Sample.antt =====
-- A text form of a grant's body that reads back: each text of the body with a letter a before every
-- character, and a letter b behind it.
use Prim.Native.Char.{Char, code}
use Prim.Native.String.{◌∷◌ as str_cons}
use th_layer_agent.Common.{
  ◌≡◌, refl, ap, ◌∙◌, String, Bool, true, false, List, [], ◌∷◌, Option, none, some, nat_eq,
  if◌then◌else◌,
}
use th_layer_agent.Consent.{GrantBody}
use mathlib.Core.Option

escape : String → String → String
escape String.[] t = str_cons "b" t
escape (String.◌∷◌ c s) t = str_cons "a" (String.◌∷◌ c (escape s t))

texts : List String → String
unfolding escape
texts [] = ""
texts (x ∷ xs) = escape x (texts xs)

onto : Char → Option (List String) → Option (List String)
onto c none = none
onto c (some []) = none
onto c (some (x ∷ xs)) = some (String.◌∷◌ c x ∷ xs)

-- `escaped` says that a letter a has been read
read : Bool → String → Option (List String)
unfolding onto
read escaped String.[] = if escaped then none else some []
read true (String.◌∷◌ c s) = onto c (read false s)
read false (String.◌∷◌ c s) =
    let char = read true s in
    let next = Option.map (λ xs. "" ∷ xs) (read false s) in
    if nat_eq (code c) b'a' then char else next

onto-map :
    (c : Char) (s : String) (o : Option (List String))
    → onto c (Option.map (λ xs. s ∷ xs) o) ≡ Option.map (λ xs. String.◌∷◌ c s ∷ xs) o
unfolding onto
onto-map c s none = refl
onto-map c s (some xs) = refl

read-escape : (x t : String) → read false (escape x t) ≡ Option.map (λ xs. x ∷ xs) (read false t)
unfolding read escape
read-escape String.[] t = refl
read-escape (String.◌∷◌ c s) t = ap (onto c) (read-escape s t) ∙ onto-map c s (read false t)

read-texts : (xs : List String) → read false (texts xs) ≡ some xs
unfolding read texts
read-texts [] = refl
read-texts (x ∷ xs) = read-escape x (texts xs) ∙ ap (Option.map (λ ys. x ∷ ys)) (read-texts xs)

to_body : List String → Option GrantBody
to_body (a ∷ b ∷ c ∷ d ∷ e ∷ f ∷ g ∷ h ∷ i ∷ j ∷ values) = some (record {
  grant_id = a;
  enterprise_id = b;
  source_l2 = c;
  target_l2 = d;
  scope_kind = e;
  scope_values = values;
  issued_at = f;
  expires_at = g;
  nonce = h;
  version = i;
  recovery_operator_pubkey_b64u = j;
})
to_body _ = none

body_texts : GrantBody → List String
body_texts b =
    b.grant_id ∷ b.enterprise_id ∷ b.source_l2 ∷ b.target_l2 ∷ b.scope_kind ∷ b.issued_at
    ∷ b.expires_at ∷ b.nonce ∷ b.version ∷ b.recovery_operator_pubkey_b64u ∷ b.scope_values

unfoldable pub canonical : GrantBody → String
unfolding texts body_texts
canonical b = texts (body_texts b)

of_texts : Option (List String) → Option GrantBody
unfolding to_body
of_texts none = none
of_texts (some xs) = to_body xs

unfoldable pub loads : String → Option GrantBody
unfolding read of_texts
loads s = of_texts (read false s)

pub loads-canonical : (b : GrantBody) → loads (canonical b) ≡ some b
unfolding loads canonical
loads-canonical b = ap of_texts (read-texts (body_texts b))
