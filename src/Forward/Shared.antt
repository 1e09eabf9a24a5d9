-- ===== src/Forward/Shared.antt =====
-- What a forwarded query may see, how much of it, and what is kept of it.
use mathlib.Core.Option
use th_layer_agent.Common.{
  given, String, true, ◌≡◌, refl, sym, ◌∙◌, subst, Option, none, some, List, In, inl, inr, ◌⊎◌,
  is_some, ◌*◌,
}
use th_layer_agent.Common.Exec.{ok}
use th_layer_agent.CrossConsent.{CrossConsent, Query, between, applies}
use th_layer_agent.CrossConsent.Found.{find_cross_enterprise_consent-best}
use th_layer_agent.Reputation.{or_default}
use th_layer_agent.Forward.Identity.{Host, Headers}
use th_layer_agent.Forward.Search.{Vectors, Row, flag, hit_of}
use th_layer_agent.Forward.Found.{semantic_query-In}
use th_layer_agent.Forward.Query.{
  full_body, Log, Request, QueryHit, Response, Tables, Moment, aigrp_forward_query,
}
use th_layer_agent.Forward.Collected.{MaySee, MaySeeAll, Shown, whole, redacted, collect-Shown}
use th_layer_agent.Forward.Answer.{Source, refused, searched, consent_for, forward-Answered, logged}

module _ (v : Vectors) {Body : Type 0} (host : Host Body) (body : Request v) (moment : Moment) where
  abbrev pub question : Query
  question = record {
    requester_enterprise = body.requester_enterprise;
    responder_enterprise = host.enterprise;
    requester_group = some body.requester_group;
    responder_group = some host.group;
    now_iso = moment.now_iso;
  }

  -- the consent is in the table, in force between the two Enterprises, and open to the two groups
  unfoldable pub Permits : Tables v → CrossConsent → Type 0
  Permits tables c =
      In c tables.consents × (between question c ≡ true) × (applies question c ≡ true)

  unfoldable pub SameEnterprise : Row v → Type 0
  SameEnterprise row =
      body.requester_enterprise ≡ or_default (given row.enterprise_id) "default-enterprise"

  -- the unit's group asks, or the unit is open to the other groups
  unfoldable pub SharedGroup : Row v → Type 0
  SharedGroup row =
      (body.requester_group ≡ or_default (given row.group_id) "default-group")
      ⊎ (flag v row.cross_group_allowed ≡ true)

  -- A result is an approved unit. Its detail and its action are withheld unless the requester shares
  -- the unit's group or a consent is to the full body; and it is only seen at all within the unit's
  -- Enterprise or under a consent, and by a requester of this Enterprise or under a consent.
  unfoldable pub Visible : Tables v → QueryHit v → Row v → Type 0
  Visible tables q row =
      (q.ku_id ≡ (row.unit).id)
      × ((body.requester_enterprise ≡ host.enterprise) ⊎ ((c : CrossConsent) × Permits tables c))
      × (SameEnterprise row ⊎ ((c : CrossConsent) × Permits tables c))
      × (((q.detail ≡ none) × (q.action ≡ none))
          ⊎ (SameEnterprise row × SharedGroup row)
          ⊎ ((c : CrossConsent) × Permits tables c × (c.policy ≡ "full_body")))

  permitted :
      (tables : Tables v) (consent : Option CrossConsent)
      → ((body.requester_enterprise ≡ host.enterprise) × (consent ≡ none))
        ⊎ ((consent_for v host body moment tables ≡ consent) × (is_some consent ≡ true))
      → (c : CrossConsent) → consent ≡ some c
      → Permits tables c
  unfolding consent_for Permits
  permitted tables consent granted c e = elim granted [
    | inl (same, n) ↦ let clash : none ≡ some c = sym n ∙ e in absurd cc
    | inr (found, some_c) ↦
        let best = find_cross_enterprise_consent-best question tables.consents c (found ∙ e) in
        (best.0, best.1, best.2)
  ]

  admitted :
      (tables : Tables v) (consent : Option CrossConsent)
      → ((body.requester_enterprise ≡ host.enterprise) × (consent ≡ none))
        ⊎ ((consent_for v host body moment tables ≡ consent) × (is_some consent ≡ true))
      → (body.requester_enterprise ≡ host.enterprise) ⊎ ((c : CrossConsent) × Permits tables c)
  admitted tables none (inl (same, n)) = inl same
  admitted tables none (inr (found, absent_)) = absurd cc
  admitted tables (some c) granted = inr (c, permitted tables (some c) granted c refl)

  Shown-Visible :
      (tables : Tables v) (consent : Option CrossConsent) (row : Row v) (sim : v.Sim)
      (q : QueryHit v)
      → ((body.requester_enterprise ≡ host.enterprise) × (consent ≡ none))
        ⊎ ((consent_for v host body moment tables ≡ consent) × (is_some consent ≡ true))
      → Shown v body consent (hit_of v row sim) q
      → Visible tables q row
  unfolding Visible SameEnterprise SharedGroup MaySee MaySeeAll
  Shown-Visible tables consent row sim q granted (redacted (inl same)) =
      (refl, admitted tables consent granted, inl same, inl (refl, refl))
  Shown-Visible tables consent row sim q granted (redacted (inr (c, e))) = (
    refl,
    admitted tables consent granted,
    inr (c, permitted tables consent granted c e),
    inl (refl, refl),
  )
  Shown-Visible tables consent row sim q granted (whole (inl (same, shared))) =
      (refl, admitted tables consent granted, inl same, inr (inl (same, shared)))
  Shown-Visible tables consent row sim q granted (whole (inr (c, e, policy))) =
      let permits = permitted tables consent granted c e in
      (refl, admitted tables consent granted, inr (c, permits), inr (inr (c, permits, policy)))

  Source-Visible :
      (tables : Tables v) (consent : Option CrossConsent) (results : List (QueryHit v))
      (policy : String)
      → Source v host body moment tables consent results policy
      → (q : QueryHit v) → In q results
      → (row : Row v) × In row tables.units × (row.status ≡ "approved") × Visible tables q row
  Source-Visible tables consent results policy (refused f n) q i = absurd i
  Source-Visible tables _ _ _ (searched consent granted hits m) q i =
      let shown = collect-Shown v body consent full_body hits q i in
      let row =
        semantic_query-In v body.query_vec (body.max_results * 3) "approved" tables.units hits
          shown.0 m shown.1 in
      (
        row.0,
        row.1,
        row.2,
        Shown-Visible tables consent row.0 (row.3).0 q granted
            (subst (λ h. Shown v body consent h q) (row.3).1 shown.2),
      )

  -- Each result of an answer is an approved unit of the table. The requester names this Enterprise as
  -- its own, or a consent in the table is in force between the two and open to both groups; the same
  -- holds with the unit's Enterprise for this one. Detail and action are withheld unless the requester
  -- names the unit's Enterprise and either its group or a unit that is open to other groups, or such a
  -- consent is to the full body.
  pub forward_query-Visible :
      (tables : Tables v) (headers : Headers) (dumped : Body) (log log' : Log) (r : Response v)
      → aigrp_forward_query v host tables headers body dumped moment log ≡ (ok r, log')
      → (q : QueryHit v) → In q r.results
      → (row : Row v) × In row tables.units × (row.status ≡ "approved") × Visible tables q row
  forward_query-Visible tables headers dumped log log' r h q i =
      let answer = forward-Answered v host body moment tables headers dumped log log' r h in
      Source-Visible tables answer.consent r.results r.policy_applied answer.source q i

  Source-id :
      (tables : Tables v) (consent : Option CrossConsent) (results : List (QueryHit v))
      (policy : String)
      → Source v host body moment tables consent results policy
      → (Option.map (λ c. c.consent_id) consent ≡ none)
        ⊎ ((c : CrossConsent) × Permits tables c
            × (Option.map (λ c. c.consent_id) consent ≡ some c.consent_id))
  Source-id tables _ _ _ (refused f n) = inl refl
  Source-id tables _ _ _ (searched none granted hits m) = inl refl
  Source-id tables _ _ _ (searched (some c) granted hits m) =
      inr (c, permitted tables (some c) granted c refl, refl)

  -- An answer leaves one row in the audit log, behind the others, and one task for the activity log.
  -- Both name the policy, the number of results and, for the task, the units that the answer gives; the
  -- row names a consent only if the requester is under it.
  pub forward_query-logged :
      (tables : Tables v) (headers : Headers) (dumped : Body) (log log' : Log) (r : Response v)
      → aigrp_forward_query v host tables headers body dumped moment log ≡ (ok r, log')
      → (consent_id : Option String) × (log' ≡ logged v host body moment r consent_id log)
        × ((consent_id ≡ none)
            ⊎ ((c : CrossConsent) × Permits tables c × (consent_id ≡ some c.consent_id)))
  forward_query-logged tables headers dumped log log' r h =
      let answer = forward-Answered v host body moment tables headers dumped log log' r h in
      (
        Option.map (λ c. c.consent_id) answer.consent,
        answer.is_logged,
        Source-id tables answer.consent r.results r.policy_applied answer.source,
      )
