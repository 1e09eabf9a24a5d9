-- ===== src/Forward/Query.antt =====
-- app.py: the answer to a forwarded query, cut down to what the policy lets the other side see.
use mathlib.Core.Option
use th_layer_agent.Common.{
  given, ℕ, ◌*◌, String, str_append, Bool, false, Option, none, some, List, [], ◌∷◌, ◌++◌, ◌==◌,
  if◌then◌else◌, leb, length, map, is_some,
}
use th_layer_agent.Common.Exec.{Exec, pure, raise_if, some_or, from_result, get, put, ◌>>=◌, ◌>>◌}
use th_layer_agent.CrossConsent.{CrossConsent, find_cross_enterprise_consent}
use th_layer_agent.Sql.{fetchone, insert}
use th_layer_agent.Sql.Keys.{by_key}
use th_layer_agent.Forward.Identity.{
  Failure, uncaught, Peer, Host, Headers, require_forwarder_identity,
}
use th_layer_agent.Forward.Search.{Vectors, Row, Hit, semantic_query_with_scope}

-- The policies of one unit.
pub data Policy : Type 0 where
  full_body : Policy
  summary_only : Policy
  denied : Policy

abbrev pub policy_text : Policy → String
policy_text full_body = "full_body"
policy_text summary_only = "summary_only"
policy_text denied = "denied"

-- The policy of one unit and the names of the fields that it withholds.
unfoldable pub decide_policy_for_ku :
    String → String → Bool → String → String → Option CrossConsent → Policy × List String
decide_policy_for_ku ku_enterprise ku_group ku_cross_group_allowed requester_enterprise
      requester_group consent =
    if requester_enterprise == ku_enterprise
    then (if requester_group == ku_group
        then (full_body, [])
        else if ku_cross_group_allowed
        then (full_body, [])
        else (summary_only, "detail" ∷ "action" ∷ []))
    else elim consent [
      | none ↦ (denied, [])
      | some c ↦
          if c.policy == "full_body"
          then (full_body, [])
          else (summary_only, "detail" ∷ "action" ∷ [])
    ]

pub record AuditRow : Type 0 where
  pub audit_id : String
  pub ts : String
  pub requester_l2_id : String
  pub requester_enterprise : String
  pub requester_group : String
  pub requester_persona : Option String
  pub responder_l2_id : String
  pub responder_enterprise : String
  pub responder_group : String
  pub policy_applied : String
  pub result_count : ℕ
  pub consent_id : Option String

-- A task that is to write the activity log after the response.
pub record Activity : Type 0 where
  pub policy_applied : String
  pub ku_ids : List String
  pub result_count : ℕ

pub record Log : Type 0 where
  pub audit : List AuditRow
  pub tasks : List Activity

-- The draws and the clock: the id and the time of the audit row, and the time of the consent check.
pub record Moment : Type 0 where
  pub audit_id : String
  pub ts : String
  pub now_iso : String

unfoldable pub record_cross_l2_audit : AuditRow → Exec Failure Log (Unit {0})
record_cross_l2_audit row = do
  log ← get
  raise_if (is_some (fetchone (by_key (λ r. r.audit_id) row.audit_id) log.audit)) uncaught
  put (record { audit = insert row log.audit; tasks = log.tasks })

module _ (v : Vectors) where
  -- The request's body, within the bounds of its model.
  pub record Request : Type 0 where
    pub query_vec : v.Vec
    pub requester_l2_id : String
    pub requester_enterprise : String
    pub requester_group : String
    pub requester_persona : String
    pub max_results : ℕ

  pub record QueryHit : Type 0 where
    pub ku_id : String
    pub summary : String
    pub detail : Option String
    pub action : Option String
    pub domains : List String
    pub sim_score : v.Sim
    pub confidence : ℕ
    pub redacted_fields : List String

  pub record Response : Type 0 where
    pub responder_l2_id : String
    pub responder_enterprise : String
    pub responder_group : String
    pub policy_applied : String
    pub results : List QueryHit
    pub result_count : ℕ

  -- the tables as they are during the request
  pub record Tables : Type 0 where
    pub units : List (Row v)
    pub consents : List CrossConsent
    pub peers : List Peer

  abbrev pub redacted_hit : Hit v → List String → QueryHit
  redacted_hit h redacted = record {
    ku_id = (h.unit).id;
    summary = (h.unit).summary;
    detail = none;
    action = none;
    domains = (h.unit).domains;
    sim_score = h.similarity;
    confidence = (h.unit).confidence;
    redacted_fields = redacted;
  }

  abbrev pub full_hit : Hit v → QueryHit
  full_hit h = record {
    ku_id = (h.unit).id;
    summary = (h.unit).summary;
    detail = some (h.unit).detail;
    action = some (h.unit).action;
    domains = (h.unit).domains;
    sim_score = h.similarity;
    confidence = (h.unit).confidence;
    redacted_fields = [];
  }

  abbrev pub policy_of : Request → Option CrossConsent → Hit v → Policy × List String
  unfolding decide_policy_for_ku
  policy_of body consent h =
      decide_policy_for_ku h.enterprise_id h.group_id h.cross_group_allowed
        body.requester_enterprise body.requester_group consent

  -- the loop over the hits, with the results so far and the policy of the response
  unfoldable pub collect :
      Request → Option CrossConsent → List QueryHit → Policy → List (Hit v) → List QueryHit × Policy
  unfolding decide_policy_for_ku
  collect body consent results response_policy [] = (results, response_policy)
  collect body consent results response_policy (h ∷ hits) =
      let decided = policy_of body consent h in
      let skipped = collect body consent results response_policy hits in
      let short = results ++ redacted_hit h decided.1 ∷ [] in
      let long = results ++ full_hit h ∷ [] in
      let after_short = collect body consent short summary_only hits in
      let after_long = collect body consent long response_policy hits in
      elim (decided.0) [
        | denied ↦ skipped
        | summary_only ↦
            if leb body.max_results (length short) then (short, summary_only) else after_short
        | full_body ↦
            if leb body.max_results (length long) then (long, response_policy) else after_long
      ]

  -- the row, and then the task, that every answer leaves behind
  unfoldable pub log_answer :
      {Body : Type 0}
      → Host Body
      → Request
      → Moment
      → String
      → List QueryHit
      → Option String
      → Exec Failure Log Response
  unfolding record_cross_l2_audit
  log_answer host body moment policy results consent_id = do
    let responder_l2_id = str_append host.enterprise (str_append "/" host.group)
    record_cross_l2_audit (record {
      audit_id = moment.audit_id;
      ts = moment.ts;
      requester_l2_id = body.requester_l2_id;
      requester_enterprise = body.requester_enterprise;
      requester_group = body.requester_group;
      requester_persona = given (some body.requester_persona);
      responder_l2_id = responder_l2_id;
      responder_enterprise = host.enterprise;
      responder_group = host.group;
      policy_applied = policy;
      result_count = length results;
      consent_id = consent_id;
    })
    log ← get
    put (record {
      audit = log.audit;
      tasks =
          log.tasks
          ++ record {
            policy_applied = policy;
            ku_ids = map (λ h. h.ku_id) results;
            result_count = length results;
          }
            ∷ [];
    })
    pure (record {
      responder_l2_id = responder_l2_id;
      responder_enterprise = host.enterprise;
      responder_group = host.group;
      policy_applied = policy;
      results = results;
      result_count = length results;
    })

  -- the answer from the units that are found
  unfoldable pub serve :
      {Body : Type 0}
      → Host Body
      → Tables
      → Request
      → Moment
      → Option CrossConsent
      → Exec Failure Log Response
  unfolding semantic_query_with_scope collect log_answer
  serve host tables body moment consent = do
    raw_hits ←
        some_or
          (semantic_query_with_scope v body.query_vec (body.max_results * 3) "approved"
            tables.units)
          uncaught
    let found = collect body consent [] full_body raw_hits
    log_answer host body moment (policy_text found.1) found.0
        (Option.map (λ c. c.consent_id) consent)

  unfoldable pub aigrp_forward_query :
      {Body : Type 0}
      → Host Body
      → Tables
      → Headers
      → Request
      → Body
      → Moment
      → Exec Failure Log Response
  unfolding require_forwarder_identity find_cross_enterprise_consent serve log_answer
  aigrp_forward_query host tables headers body dumped moment = do
    from_result (
        require_forwarder_identity host tables.peers headers body.requester_l2_id false
          (some dumped))
    if body.requester_enterprise == host.enterprise
        then serve host tables body moment none
        else elim (find_cross_enterprise_consent
            (record {
              requester_enterprise = body.requester_enterprise;
              responder_enterprise = host.enterprise;
              requester_group = some body.requester_group;
              responder_group = some host.group;
              now_iso = moment.now_iso;
            })
            tables.consents) [
              | none ↦ log_answer host body moment "denied" [] none
              | some consent ↦ serve host tables body moment (some consent)
            ]
