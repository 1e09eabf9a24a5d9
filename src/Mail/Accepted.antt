-- ===== src/Mail/Accepted.antt =====
-- What an accepted request has shown: its group, its signature, and a body in the model's shape.
use th_layer_agent.Common.{
  given, String, true, false, ◌≡◌, refl, sym, ap, Option, none, some, Bool-cases, Option-cases,
  arith, inl, inr, ◌⊎◌, ◌&&◌, str_eq→eq,
}
use th_layer_agent.Common.Exec.{ok, err}
use th_layer_agent.Common.Splits.{has_char, split_once, starts_with, is_ascii, split_once-has_char}
use th_layer_agent.Mail.Auth.{verify_hmac_signature, compute_signature, compare_digest}
use th_layer_agent.Mail.Send.{
  Setting, Call, Service, Failure, http, uncaught, authenticate, Answer, suppressed, answer_409,
}

digest-eq : (a b : String) → compare_digest a b ≡ some true → a ≡ b
unfolding compare_digest
digest-eq a b h = elim (Bool-cases (is_ascii a && is_ascii b)) [
  | inl ascii ↦ str_eq→eq a b (ground arith)
  | inr wide ↦ ground arith
]

given-eq : (o : Option String) {x : String} → given o ≡ some x → o ≡ some x
given-eq none h = h
given-eq (some s) h = ground arith

module _ {Body : Type 0} (hexdigest : String → Body → String) where
  -- an accepted signature is the one computed with the group's key
  verify-signed :
      (resolver : String → Option String) (body : Body) (header : Option String) (l2_id : String)
      → verify_hmac_signature hexdigest resolver body header l2_id ≡ some true
      → (key : String) × (resolver l2_id ≡ some key)
        × (header ≡ some (compute_signature hexdigest key body))
  unfolding verify_hmac_signature
  verify-signed resolver body none l2_id h = absurd cc
  verify-signed resolver body (some header) l2_id h =
      elim (Bool-cases (starts_with "sha256=" header)) [
        | inr f ↦ absurd (ground arith)
        | inl t ↦ elim (Option-cases (resolver l2_id)) [
          | inl e ↦ absurd (ground arith)
          | inr (key, e) ↦ (
            key,
            e,
            ap some (sym (digest-eq (compute_signature hexdigest key body) header (ground arith))),
          )
        ]
      ]

-- the answer that a failure carries, to be kept: that of a suppressed recipient
unfoldable pub failure_answer : Failure → Option Answer
failure_answer (http status detail) = none
failure_answer (suppressed reason) = some (answer_409 reason)
failure_answer uncaught = none

module _ {Body : Type 0} (env : Setting Body) where
  unfoldable pub Signed : Call Body → String × String × String → Type 0
  Signed c who =
      (given c.l2_id ≡ some who.0)
      × (split_once 47 who.0 ≡ some (who.1, who.2))
      × ((key : String) × (env.resolver who.0 ≡ some key)
          × (c.signature ≡ some (compute_signature env.hexdigest key c.body)))

  -- A request is signed or refused, and neither depends on the service's state or changes it.
  pub authenticate-cases :
      (c : Call Body)
      → ((who : String × String × String) × Signed c who
          × ((s : Service) → authenticate env c s ≡ (ok who, s)))
        ⊎ ((f : Failure) × (failure_answer f ≡ none)
            × ((s : Service) → authenticate env c s ≡ (err f, s)))
  unfolding Signed authenticate failure_answer
  authenticate-cases c = elim (Option-cases (given c.l2_id)) [
    | inl e ↦ inr (http 401 "missing X-8L-L2-Id header", refl, λ s. ground arith)
    | inr (l2_id, e) ↦ elim (Bool-cases (has_char 47 l2_id)) [
      | inr f ↦
          inr (http 401 "malformed X-8L-L2-Id (expected enterprise/group)", refl, λ s. ground arith)
      | inl t ↦
          elim (Option-cases
            (verify_hmac_signature env.hexdigest env.resolver c.body (given c.signature) l2_id)) [
              | inl v ↦ inr (uncaught, refl, λ s. ground arith)
              | inr (false, v) ↦ inr (http 401 "invalid signature", refl, λ s. ground arith)
              | inr (true, v) ↦ elim (Option-cases (split_once 47 l2_id)) [
                | inl n ↦ absurd (split_once-has_char 47 l2_id t n)
                | inr ((e_id, g_id), p) ↦
                    let signed =
                      verify-signed env.hexdigest env.resolver c.body (given c.signature) l2_id v in
                    inl (
                      (l2_id, e_id, g_id),
                      (e, p, (signed.0, signed.1, given-eq c.signature signed.2)),
                      λ s. ground arith,
                    )
              ]
            ]
    ]
  ]
