-- ===== src/Forward/Answer.antt =====
-- The handler of a forwarded query as a whole: what its answer shows, and the record it leaves.
use mathlib.Core.Option
use th_layer_agent.Common.{
  ◌*◌, given, String, str_append, true, false, ◌≡◌, refl, sym, ap, ◌∙◌, subst, Option, none, some,
  List, [], ◌∷◌, ◌++◌, inl, inr, ◌⊎◌, Bool-cases, Option-cases, arith, str_eq→eq, length, map,
  is_some, ◌==◌,
}
use th_layer_agent.Common.Exec.{ok, err, Result-cases, ok≢err, ok_inj}
use th_layer_agent.CrossConsent.{CrossConsent, find_cross_enterprise_consent}
use th_layer_agent.Sql.{fetchone, insert}
use th_layer_agent.Sql.Keys.{by_key}
use th_layer_agent.Forward.Identity.{uncaught, Host, Headers, require_forwarder_identity}
use th_layer_agent.Forward.Search.{Vectors, Hit, semantic_query_with_scope}
use th_layer_agent.Forward.Query.{
  full_body, policy_text, AuditRow, Activity, Log, Request, QueryHit, Response, Tables, Moment,
  collect, record_cross_l2_audit, log_answer, serve, aigrp_forward_query,
}

module _ (v : Vectors) {Body : Type 0} (host : Host Body) (body : Request v) (moment : Moment) where
  abbrev pub audit_row : Response v → Option String → AuditRow
  audit_row r consent_id = record {
    audit_id = moment.audit_id;
    ts = moment.ts;
    requester_l2_id = body.requester_l2_id;
    requester_enterprise = body.requester_enterprise;
    requester_group = body.requester_group;
    requester_persona = given (some body.requester_persona);
    responder_l2_id = r.responder_l2_id;
    responder_enterprise = r.responder_enterprise;
    responder_group = r.responder_group;
    policy_applied = r.policy_applied;
    result_count = r.result_count;
    consent_id = consent_id;
  }

  abbrev pub task : Response v → Activity
  task r = record {
    policy_applied = r.policy_applied;
    ku_ids = map (λ h. h.ku_id) r.results;
    result_count = r.result_count;
  }

  abbrev pub logged : Response v → Option String → Log → Log
  logged r consent_id log = record {
    audit = insert (audit_row r consent_id) log.audit;
    tasks = log.tasks ++ task r ∷ [];
  }

  abbrev pub response : String → List (QueryHit v) → Response v
  response policy results = record {
    responder_l2_id = str_append host.enterprise (str_append "/" host.group);
    responder_enterprise = host.enterprise;
    responder_group = host.group;
    policy_applied = policy;
    results = results;
    result_count = length results;
  }

  log_answer-ok :
      (policy : String) (results : List (QueryHit v)) (consent_id : Option String) (log log' : Log)
      (r : Response v)
      → log_answer v host body moment policy results consent_id log ≡ (ok r, log')
      → (r ≡ response policy results) × (log' ≡ logged (response policy results) consent_id log)
  unfolding log_answer record_cross_l2_audit
  log_answer-ok policy results consent_id log log' r h =
      elim (Bool-cases (is_some (fetchone (by_key (λ x. x.audit_id) moment.audit_id) log.audit))) [
        | inl t ↦
            let bad : (log_answer v host body moment policy results consent_id log).0
                ≡ err uncaught =
              ground arith in
            absurd (ok≢err (sym (ap (λ x. x.0) h) ∙ bad))
        | inr f ↦
            let run : log_answer v host body moment policy results consent_id log
                ≡ (ok (response policy results), logged (response policy results) consent_id log) =
              ground arith in
            let same = sym h ∙ run in (ok_inj (ap (λ x. x.0) same), ap (λ x. x.1) same)
      ]

  unfoldable pub consent_for : Tables v → Option CrossConsent
  consent_for tables =
      find_cross_enterprise_consent
        (record {
          requester_enterprise = body.requester_enterprise;
          responder_enterprise = host.enterprise;
          requester_group = some body.requester_group;
          responder_group = some host.group;
          now_iso = moment.now_iso;
        })
        tables.consents

  -- where an answer comes from: the refusal, or the hits of the search under a consent or none
  pub data Source (tables : Tables v)
      : Option CrossConsent → List (QueryHit v) → String → Type 0 where
    refused :
        body.requester_enterprise == host.enterprise ≡ false
        → consent_for tables ≡ none
        → Source tables none [] "denied"
    searched :
        (consent : Option CrossConsent)
        → ((body.requester_enterprise ≡ host.enterprise) × (consent ≡ none))
          ⊎ ((consent_for tables ≡ consent) × (is_some consent ≡ true))
        → (hits : List (Hit v))
        → semantic_query_with_scope v body.query_vec (body.max_results * 3) "approved" tables.units
          ≡ some hits
        → Source tables consent
            (collect v body consent [] full_body hits).0
            (policy_text (collect v body consent [] full_body hits).1)

  -- an answer, with the record it leaves
  pub record Answered (tables : Tables v) (log log' : Log) (r : Response v) : Type 0 where
    pub consent : Option CrossConsent
    pub source : Source tables consent r.results r.policy_applied
    pub is_response : r ≡ response r.policy_applied r.results
    pub is_logged : log' ≡ logged r (Option.map (λ c. c.consent_id) consent) log

  answered :
      (tables : Tables v) (consent : Option CrossConsent) (log log' : Log) (r : Response v)
      (policy : String) (results : List (QueryHit v))
      → (r ≡ response policy results)
        × (log' ≡ logged (response policy results) (Option.map (λ c. c.consent_id) consent) log)
      → Source tables consent results policy
      → Answered tables log log' r
  answered tables consent log log' r policy results made source =
      subst (Answered tables log log') (sym made.0)
        (record { consent = consent; source = source; is_response = refl; is_logged = made.1 })

  serve-Answered :
      (tables : Tables v) (consent : Option CrossConsent) (log log' : Log) (r : Response v)
      → ((body.requester_enterprise ≡ host.enterprise) × (consent ≡ none))
        ⊎ ((consent_for tables ≡ consent) × (is_some consent ≡ true))
      → serve v host tables body moment consent log ≡ (ok r, log')
      → Answered tables log log' r
  unfolding serve
  serve-Answered tables consent log log' r granted h =
      elim (Option-cases (
        semantic_query_with_scope v body.query_vec (body.max_results * 3) "approved"
          tables.units)) [
            | inl n ↦
                let bad : (serve v host tables body moment consent log).0 ≡ err uncaught =
                  ground arith in
                absurd (ok≢err (sym (ap (λ x. x.0) h) ∙ bad))
            | inr (hits, m) ↦
                let found = collect v body consent [] full_body hits in
                let run : serve v host tables body moment consent log
                    ≡ log_answer v host body moment (policy_text found.1) found.0
                        (Option.map (λ c. c.consent_id) consent) log =
                  ground arith in
                let made =
                  log_answer-ok (policy_text found.1) found.0
                    (Option.map (λ c. c.consent_id) consent) log log' r (sym run ∙ h) in
                answered tables consent log log' r (policy_text found.1) found.0 made
                  (searched consent granted hits m)
          ]

  pub forward-Answered :
      (tables : Tables v) (headers : Headers) (dumped : Body) (log log' : Log) (r : Response v)
      → aigrp_forward_query v host tables headers body dumped moment log ≡ (ok r, log')
      → Answered tables log log' r
  unfolding aigrp_forward_query consent_for
  forward-Answered tables headers dumped log log' r h =
      elim (Result-cases (
        require_forwarder_identity host tables.peers headers body.requester_l2_id false
          (some dumped))) [
            | inr (e, m) ↦
                let bad : (aigrp_forward_query v host tables headers body dumped moment log).0
                    ≡ err e =
                  ground arith in
                absurd (ok≢err (sym (ap (λ x. x.0) h) ∙ bad))
            | inl (id, m) ↦ elim (Bool-cases (body.requester_enterprise == host.enterprise)) [
              | inl t ↦
                  let run : aigrp_forward_query v host tables headers body dumped moment log
                      ≡ serve v host tables body moment none log =
                    ground arith in
                  serve-Answered tables none log log' r
                    (inl (str_eq→eq body.requester_enterprise host.enterprise t, refl))
                    (sym run ∙ h)
              | inr f ↦ elim (Option-cases (consent_for tables)) [
                | inl n ↦
                    let run : aigrp_forward_query v host tables headers body dumped moment log
                        ≡ log_answer v host body moment "denied" [] none log =
                      ground arith in
                    answered tables none log log' r "denied" []
                      (log_answer-ok "denied" [] none log log' r (sym run ∙ h)) (refused f n)
                | inr (c, e) ↦
                    let run : aigrp_forward_query v host tables headers body dumped moment log
                        ≡ serve v host tables body moment (some c) log =
                      ground arith in
                    serve-Answered tables (some c) log log' r (inr (e, refl)) (sym run ∙ h)
              ]
            ]
          ]
