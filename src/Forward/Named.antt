-- ===== src/Forward/Named.antt =====
-- The loop of app.py over the hits: how many results there are, and the policy that the response names.
use th_layer_agent.Common.{
  ◌≤◌, ◌<◌, Bool, true, false, ◌||◌, ◌≡◌, refl, sym, ap, ◌∙◌, Option, List, [], ◌∷◌, ◌++◌, arith,
  length, length-append, if◌then◌else◌,
}
use th_layer_agent.CrossConsent.{CrossConsent}
use th_layer_agent.Forward.Search.{Vectors, Hit}
use th_layer_agent.Forward.Query.{Policy, full_body, summary_only, Request, QueryHit, collect}
use th_layer_agent.Forward.Collected.{
  Turn, skip, finish, go_on, collect-Turn, is_redacted, stricter,
}

stricter_of :
    (a b : Bool) (policy : Policy)
    → policy ≡ (if a then summary_only else full_body)
    → (if b then summary_only else policy) ≡ (if a || b then summary_only else full_body)
stricter_of true true policy h = refl
stricter_of true false policy h = h
stricter_of false true policy h = refl
stricter_of false false policy h = h

module _ (v : Vectors) where
  -- some result has fields that were withheld
  unfoldable pub has_redacted : List (QueryHit v) → Bool
  has_redacted [] = false
  has_redacted (q ∷ results) = is_redacted v q || has_redacted results

  unfoldable pub named_policy : List (QueryHit v) → Policy
  unfolding has_redacted
  named_policy results = if has_redacted results then summary_only else full_body

module _ (v : Vectors) (body : Request v) (consent : Option CrossConsent) where
  Turn-length :
      (results : List (QueryHit v)) (policy : Policy) (h : Hit v) (hits : List (Hit v))
      {r : List (QueryHit v) × Policy}
      → length results < body.max_results
      → ((before : List (QueryHit v)) (p : Policy)
          → length before < body.max_results
          → length (collect v body consent before p hits).0 ≤ body.max_results)
      → Turn v body consent results policy h hits r
      → length r.0 ≤ body.max_results
  Turn-length results policy h hits room rest skip = rest results policy room
  Turn-length results policy h hits room rest (finish q shown) =
      omega (arith, room, length-append results (q ∷ []))
  Turn-length results policy h hits room rest (go_on q shown more) =
      rest (results ++ q ∷ []) (stricter v body consent q policy) (ground arith)

  pub collect-length :
      (hits : List (Hit v)) (results : List (QueryHit v)) (policy : Policy)
      → length results < body.max_results
      → length (collect v body consent results policy hits).0 ≤ body.max_results
  unfolding collect
  collect-length [] results policy room = omega (arith, room)
  collect-length (h ∷ hits) results policy room =
      Turn-length results policy h hits room (collect-length hits)
        (collect-Turn v body consent results policy h hits)

  has_redacted-append :
      (results : List (QueryHit v)) (q : QueryHit v)
      → has_redacted v (results ++ q ∷ []) ≡ has_redacted v results || is_redacted v q
  unfolding has_redacted
  has_redacted-append [] q = ground arith
  has_redacted-append (x ∷ results) q = ground (arith, has_redacted-append results q)

  stricter-named :
      (results : List (QueryHit v)) (policy : Policy) (q : QueryHit v)
      → policy ≡ named_policy v results
      → stricter v body consent q policy ≡ named_policy v (results ++ q ∷ [])
  unfolding named_policy
  stricter-named results policy q same =
      stricter_of (has_redacted v results) (is_redacted v q) policy same
      ∙ ap (λ b. if b then summary_only else full_body) (sym (has_redacted-append results q))

  Turn-policy :
      (results : List (QueryHit v)) (policy : Policy) (h : Hit v) (hits : List (Hit v))
      {r : List (QueryHit v) × Policy}
      → policy ≡ named_policy v results
      → ((before : List (QueryHit v)) (p : Policy)
          → p ≡ named_policy v before
          → (collect v body consent before p hits).1
            ≡ named_policy v (collect v body consent before p hits).0)
      → Turn v body consent results policy h hits r
      → r.1 ≡ named_policy v r.0
  Turn-policy results policy h hits same rest skip = rest results policy same
  Turn-policy results policy h hits same rest (finish q shown) =
      stricter-named results policy q same
  Turn-policy results policy h hits same rest (go_on q shown more) =
      rest (results ++ q ∷ []) (stricter v body consent q policy)
        (stricter-named results policy q same)

  pub collect-policy :
      (hits : List (Hit v)) (results : List (QueryHit v)) (policy : Policy)
      → policy ≡ named_policy v results
      → (collect v body consent results policy hits).1
        ≡ named_policy v (collect v body consent results policy hits).0
  unfolding collect
  collect-policy [] results policy same = same
  collect-policy (h ∷ hits) results policy same =
      Turn-policy results policy h hits same (collect-policy hits)
        (collect-Turn v body consent results policy h hits)
