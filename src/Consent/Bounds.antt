-- ===== src/Consent/Bounds.antt =====
-- What a body built by `build_grant_body` is bounded to.
use th_layer_agent.Common.{
  ◌-◌, subst, ◌+◌, ◌≤◌, ◌<◌, ltb, leb, String, true, false, not, ◌&&◌, ◌||◌, some, ◌==◌, ◌≡◌, inl,
  inr, arith, Bool-cases, Option-cases,
}
use th_layer_agent.Common.Exec.{ok}
use th_layer_agent.Consent.{
  Stamp, GrantBody, Host, BodyRequest, build_grant_body, max_grant_ttl_days, built_body, days,
  is_empty,
}

pub record Bounded (host : Host) (body : GrantBody) : Type 0 where
  pub issued : Stamp
  pub expires : Stamp
  pub issued_at : host.fromisoformat body.issued_at ≡ some issued
  pub expires_at : host.fromisoformat body.expires_at ≡ some expires
  pub in_order : issued.instant < expires.instant
  pub within : expires.instant ≤ issued.instant + days 90
  pub between_groups : (body.source_l2 == body.target_l2) ≡ false
  pub scoped : ((body.scope_kind == "all") || not (is_empty body.scope_values)) ≡ true

module _ (host : Host) where
  built_body-Bounded :
      (req : BodyRequest) (new_id new_nonce : String) (issued expires : Stamp)
      → host.fromisoformat req.issued_at ≡ some issued
      → host.fromisoformat req.expires_at ≡ some expires
      → leb expires.instant issued.instant ≡ false
      → ltb (days max_grant_ttl_days) (expires.instant - issued.instant) ≡ false
      → (req.source_l2 == req.target_l2) ≡ false
      → (not (req.scope_kind == "all") && is_empty req.scope_values) ≡ false
      → Bounded host (built_body req new_id new_nonce)
  unfolding built_body
  built_body-Bounded req new_id new_nonce issued expires i e o w b s = record {
    issued = issued;
    expires = expires;
    issued_at = i;
    expires_at = e;
    in_order = ground (arith, o);
    within = ground (arith, w);
    between_groups = b;
    scoped = ground (arith, s);
  }

  -- A body that is built has readable times, expires after its issue and at most 90 days later, names
  -- two different groups, and has values in its scope unless the scope is all.
  pub build_grant_body-Bounded :
      (req : BodyRequest) (new_id new_nonce : String) (body : GrantBody)
      → build_grant_body host req new_id new_nonce tt ≡ (ok body, tt)
      → Bounded host body
  unfolding build_grant_body
  build_grant_body-Bounded req new_id new_nonce body h =
      elim (Option-cases (host.fromisoformat req.issued_at)) [
        | inl unread ↦ absurd (ground (arith, h))
        | inr (issued, issued_at) ↦ elim (Option-cases (host.fromisoformat req.expires_at)) [
          | inl unread ↦ absurd (ground (arith, h))
          | inr (expires, expires_at) ↦ elim (Bool-cases (leb expires.instant issued.instant)) [
            | inl early ↦ absurd (ground (arith, h))
            | inr in_order ↦
                elim (Bool-cases
                  (ltb (days max_grant_ttl_days) (expires.instant - issued.instant))) [
                    | inl long ↦ absurd (ground (arith, h))
                    | inr within ↦ elim (Bool-cases (req.source_l2 == req.target_l2)) [
                      | inl same ↦ absurd (ground (arith, h))
                      | inr between ↦
                          elim (Bool-cases
                            (not (req.scope_kind == "all") && is_empty req.scope_values)) [
                              | inl unscoped ↦ absurd (ground (arith, h))
                              | inr scoped ↦
                                  let built : built_body req new_id new_nonce ≡ body =
                                    ground (arith, h) in
                                  subst (Bounded host) built (
                                    built_body-Bounded req new_id new_nonce issued expires issued_at
                                      expires_at in_order within between scoped)
                            ]
                    ]
                  ]
          ]
        ]
      ]
