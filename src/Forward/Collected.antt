-- ===== src/Forward/Collected.antt =====
-- The loop of app.py over the hits: what each result shows, how many there are, and the policy that
-- the response names.
use th_layer_agent.Common.{
  leb, String, Bool, true, false, not, ◌≡◌, refl, sym, subst, Option, some, List, [], ◌∷◌, ◌++◌, In,
  inl, inr, ◌⊎◌, Bool-cases, Option-cases, arith, str_eq→eq, length, nat_eq, ◌==◌, In-append,
  if◌then◌else◌,
}
use th_layer_agent.CrossConsent.{CrossConsent}
use th_layer_agent.Forward.Search.{Vectors, Hit}
use th_layer_agent.Forward.Query.{
  Policy, full_body, summary_only, denied, Request, QueryHit, policy_of, redacted_hit, full_hit,
  decide_policy_for_ku, collect,
}

module _ (v : Vectors) where
  -- a result with fields that were withheld
  abbrev pub is_redacted : QueryHit v → Bool
  is_redacted q = not (nat_eq (length q.redacted_fields) 0)

module _ (v : Vectors) (body : Request v) (consent : Option CrossConsent) where
  -- the requester is of the unit's Enterprise, or a consent was found
  unfoldable pub MaySee : Hit v → Type 0
  MaySee h =
      (body.requester_enterprise ≡ h.enterprise_id) ⊎ ((c : CrossConsent) × (consent ≡ some c))

  -- The requester is of the unit's group, or of its Enterprise and the unit is shared between groups, or
  -- a consent to the full body was found.
  unfoldable pub MaySeeAll : Hit v → Type 0
  MaySeeAll h =
      ((body.requester_enterprise ≡ h.enterprise_id)
        × ((body.requester_group ≡ h.group_id) ⊎ (h.cross_group_allowed ≡ true)))
      ⊎ ((c : CrossConsent) × (consent ≡ some c) × (c.policy ≡ "full_body"))

  abbrev pub withheld : List String
  withheld = "detail" ∷ "action" ∷ []

  pub data Shown (h : Hit v) : QueryHit v → Type 0 where
    whole : MaySeeAll h → Shown h (full_hit v h)
    redacted : MaySee h → Shown h (redacted_hit v h withheld)

  policy-cases :
      (h : Hit v)
      → (policy_of v body consent h ≡ (denied, []))
        ⊎ ((policy_of v body consent h ≡ (summary_only, withheld)) × MaySee h)
        ⊎ ((policy_of v body consent h ≡ (full_body, [])) × MaySeeAll h)
  unfolding decide_policy_for_ku MaySee MaySeeAll
  policy-cases h = elim (Bool-cases (body.requester_enterprise == h.enterprise_id)) [
    | inl t ↦
        let same = str_eq→eq body.requester_enterprise h.enterprise_id t in
        elim (Bool-cases (body.requester_group == h.group_id)) [
          | inl g ↦
              inr
                (inr (ground arith, inl (same, inl (str_eq→eq body.requester_group h.group_id g))))
          | inr g ↦ elim (Bool-cases h.cross_group_allowed) [
            | inl x ↦ inr (inr (ground arith, inl (same, inr x)))
            | inr x ↦ inr (inl (ground arith, inl same))
          ]
        ]
    | inr f ↦ elim (Option-cases consent) [
      | inl n ↦ inl (ground arith)
      | inr (c, e) ↦ elim (Bool-cases (c.policy == "full_body")) [
        | inl p ↦ inr (inr (ground arith, inr (c, e, str_eq→eq c.policy "full_body" p)))
        | inr p ↦ inr (inl (ground arith, inr (c, e)))
      ]
    ]
  ]

  abbrev pub stricter : QueryHit v → Policy → Policy
  stricter q policy = if is_redacted v q then summary_only else policy

  -- one turn of the loop: a hit is passed over, or added as the last result or as one of more
  pub data Turn (results : List (QueryHit v)) (policy : Policy) (h : Hit v) (hits : List (Hit v))
      : List (QueryHit v) × Policy → Type 0 where
    skip : Turn results policy h hits (collect v body consent results policy hits)
    finish :
        (q : QueryHit v)
        → Shown h q
        → Turn results policy h hits (results ++ q ∷ [], stricter q policy)
    go_on :
        (q : QueryHit v)
        → Shown h q
        → leb body.max_results (length (results ++ q ∷ [])) ≡ false
        → Turn results policy h hits
            (collect v body consent (results ++ q ∷ []) (stricter q policy) hits)

  pub collect-Turn :
      (results : List (QueryHit v)) (policy : Policy) (h : Hit v) (hits : List (Hit v))
      → Turn results policy h hits (collect v body consent results policy (h ∷ hits))
  unfolding collect
  collect-Turn results policy h hits = elim (policy-cases h) [
    | inl d ↦
        (let same : collect v body consent results policy (h ∷ hits)
              ≡ collect v body consent results policy hits =
            ground arith in
          subst (Turn results policy h hits) (sym same) (skip))
    | inr (inl (d, may)) ↦
        let q : QueryHit v = redacted_hit v h withheld in
        elim (Bool-cases (leb body.max_results (length (results ++ q ∷ [])))) [
          | inl t ↦
              (let same : collect v body consent results policy (h ∷ hits)
                    ≡ (results ++ q ∷ [], summary_only) =
                  ground arith in
                subst (Turn results policy h hits) (sym same) (finish q (redacted may)))
          | inr f ↦
              (let same : collect v body consent results policy (h ∷ hits)
                    ≡ collect v body consent (results ++ q ∷ []) summary_only hits =
                  ground arith in
                subst (Turn results policy h hits) (sym same) (go_on q (redacted may) f))
        ]
    | inr (inr (d, may)) ↦
        let q : QueryHit v = full_hit v h in
        elim (Bool-cases (leb body.max_results (length (results ++ q ∷ [])))) [
          | inl t ↦
              (let same : collect v body consent results policy (h ∷ hits)
                    ≡ (results ++ q ∷ [], policy) =
                  ground arith in
                subst (Turn results policy h hits) (sym same) (finish q (whole may)))
          | inr f ↦
              (let same : collect v body consent results policy (h ∷ hits)
                    ≡ collect v body consent (results ++ q ∷ []) policy hits =
                  ground arith in
                subst (Turn results policy h hits) (sym same) (go_on q (whole may) f))
        ]
  ]

  last-In :
      (q x : QueryHit v) (results : List (QueryHit v))
      → In q (results ++ x ∷ [])
      → In q results ⊎ (x ≡ q)
  last-In q x results i = elim (In-append q results (x ∷ []) i) [
    | inl j ↦ inl j
    | inr (inl e) ↦ inr e
    | inr (inr n) ↦ absurd n
  ]

  -- a result that is new since the loop began shows a hit
  Fresh : List (QueryHit v) → List (Hit v) → QueryHit v → Type 0
  Fresh results hits q = In q results ⊎ ((h : Hit v) × In h hits × Shown h q)

  Fresh-add :
      (results : List (QueryHit v)) (h : Hit v) (hits : List (Hit v)) (x q : QueryHit v)
      → Shown h x
      → Fresh (results ++ x ∷ []) hits q
      → Fresh results (h ∷ hits) q
  unfolding Fresh
  Fresh-add results h hits x q shown (inl i) = elim (last-In q x results i) [
    | inl j ↦ inl j
    | inr e ↦ inr (h, inl refl, subst (Shown h) e shown)
  ]
  Fresh-add results h hits x q shown (inr (h', i, shown')) = inr (h', inr i, shown')

  Turn-Fresh :
      (results : List (QueryHit v)) (policy : Policy) (h : Hit v) (hits : List (Hit v))
      (q : QueryHit v) {r : List (QueryHit v) × Policy}
      → ((before : List (QueryHit v)) (p : Policy)
          → In q (collect v body consent before p hits).0
          → Fresh before hits q)
      → Turn results policy h hits r
      → In q r.0
      → Fresh results (h ∷ hits) q
  unfolding Fresh
  Turn-Fresh results policy h hits q rest skip i = elim (rest results policy i) [
    | inl j ↦ inl j
    | inr (h', j, shown) ↦ inr (h', inr j, shown)
  ]
  Turn-Fresh results policy h hits q rest (finish x shown) i =
      Fresh-add results h hits x q shown (inl i)
  Turn-Fresh results policy h hits q rest (go_on x shown more) i =
      Fresh-add results h hits x q shown (rest (results ++ x ∷ []) (stricter x policy) i)

  collect-Fresh :
      (hits : List (Hit v)) (q : QueryHit v) (results : List (QueryHit v)) (policy : Policy)
      → In q (collect v body consent results policy hits).0
      → Fresh results hits q
  unfolding Fresh collect
  collect-Fresh [] q results policy i = inl i
  collect-Fresh (h ∷ hits) q results policy i =
      Turn-Fresh results policy h hits q (collect-Fresh hits q) (collect-Turn results policy h hits)
        i

  -- each result shows one of the hits
  pub collect-Shown :
      (policy : Policy) (hits : List (Hit v)) (q : QueryHit v)
      → In q (collect v body consent [] policy hits).0
      → (h : Hit v) × In h hits × Shown h q
  unfolding Fresh
  collect-Shown policy hits q i = elim (collect-Fresh hits q [] policy i) [
    | inl n ↦ absurd n
    | inr found ↦ found
  ]
