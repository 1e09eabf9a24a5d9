-- ===== src/Forward/Tests.antt =====
-- Forwarded queries to the group acme/eng, over vectors that are numbers.
use th_layer_agent.Common.{
  ℕ, ◌≡◌, refl, String, Bool, true, false, Option, none, some, [], ◌∷◌, In, inl, inr, ◌⊎◌, leb,
  nat_eq, length,
}
use th_layer_agent.Common.Exec.{ok}
use th_layer_agent.Common.Splits.{split_once}
use th_layer_agent.Crypto.{verify_raw}
use th_layer_agent.CrossConsent.{applies, CrossConsent, find_cross_enterprise_consent}
use th_layer_agent.Merkle.Sample.{toy}
use th_layer_agent.Sql.{fetchone, select, order_by}
use th_layer_agent.Forward.Identity.{
  Host, Headers, require_forwarder_identity, get_aigrp_peer_pubkey,
}
use th_layer_agent.Forward.Search.{StoredUnit, Vectors, Row}
use th_layer_agent.Forward.Query.{
  Log, Request, Response, Tables, Moment, aigrp_forward_query, redacted_hit, full_hit,
}
use th_layer_agent.Forward.Answer.{logged, response}
use th_layer_agent.Forward.Named.{named_policy, has_redacted}
use th_layer_agent.Forward.Shared.{Permits, Visible, forward_query-Visible, forward_query-logged}
use th_layer_agent.Forward.Signed.{Proven, require_forwarder_identity-Proven}

abbrev numbers : Vectors
numbers = record {
  Vec = ℕ;
  Sim = ℕ;
  is_empty = λ x. false;
  is_zero = λ x. nat_eq x 0;
  cosine = λ x y. some y;
  at_least = λ a b. leb b a;
}

abbrev host : Host String
host = record {
  ed = record {
    urlsafe_b64decode = λ s. some (toy.encode s);
    from_public_bytes = λ b. some b;
    verify = λ k s m. nat_eq (length s) 4;
    encode = toy.encode;
  };
  canonicalize = λ body. some (toy.encode body);
  strip = λ s. s;
  enterprise = "acme";
  group = "eng";
  require_signed_forwards = false;
}

abbrev unit : String → StoredUnit
unit id = record {
  id = id;
  summary = "s";
  detail = "d";
  action = "a";
  domains = [];
  confidence = 5;
}

abbrev row : String → String → ℕ → Row numbers
row id group near = record {
  unit = unit id;
  embedding = some near;
  enterprise_id = some "acme";
  group_id = some group;
  cross_group_allowed = none;
  status = "approved";
}

abbrev consent : CrossConsent
consent = record {
  consent_id = "c1";
  requester_enterprise = "globex";
  responder_enterprise = "acme";
  requester_group = none;
  responder_group = none;
  policy = "summary_only";
  signed_by_admin = "ann";
  signed_at = "2026-01-01";
  expires_at = none;
  audit_log_id = "a0";
}

abbrev tables : Tables numbers
tables = record {
  units = row "ku1" "eng" 3 ∷ row "ku2" "ops" 7 ∷ [];
  consents = consent ∷ [];
  peers = record { l2_id = "acme/ops"; public_key_ed25519 = some "key" } ∷ [];
}

abbrev moment : Moment
moment = record { audit_id = "a1"; ts = "t"; now_iso = "2026-02-01" }

abbrev request : String → String → String → Request numbers
request l2_id enterprise group = record {
  query_vec = 1;
  requester_l2_id = l2_id;
  requester_enterprise = enterprise;
  requester_group = group;
  requester_persona = "";
  max_results = 2;
}

abbrev headers : String → Option String → Headers
headers l2_id signature = record {
  forwarder_l2_id = some l2_id;
  forwarder_sig = signature;
  lookup_fails = false;
}

abbrev empty : Log
empty = record { audit = []; tasks = [] }

run : Unit {0}
unfolding aigrp_forward_query require_forwarder_identity find_cross_enterprise_consent fetchone
    select order_by split_once verify_raw has_redacted named_policy get_aigrp_peer_pubkey applies
run = tt

-- the sibling's answer: its own unit in full, the other group's cut down
abbrev ops : Request numbers
ops = request "acme/ops" "acme" "ops"

abbrev ops_answer : Response numbers
ops_answer = response numbers host ops moment "summary_only" (
    full_hit numbers (record {
      unit = unit "ku2";
      similarity = 7;
      enterprise_id = "acme";
      group_id = "ops";
      cross_group_allowed = false;
    })
    ∷ redacted_hit numbers
        (record {
          unit = unit "ku1";
          similarity = 3;
          enterprise_id = "acme";
          group_id = "eng";
          cross_group_allowed = false;
        })
        ("detail" ∷ "action" ∷ [])
    ∷ [])

abbrev after_ops : Log
after_ops = logged numbers host ops moment ops_answer none empty

ops_run :
    aigrp_forward_query numbers host tables (headers "acme/ops" (some "good")) ops "b" moment empty
    ≡ (ok ops_answer, after_ops)
unfolding run
ops_run = refl

forward_query-Visible_example :
    (r : Row numbers) × In r tables.units
    × (r.status ≡ "approved")
    × Visible numbers host ops moment tables
        (redacted_hit numbers
          (record {
            unit = unit "ku1";
            similarity = 3;
            enterprise_id = "acme";
            group_id = "eng";
            cross_group_allowed = false;
          })
          ("detail" ∷ "action" ∷ []))
        r
forward_query-Visible_example =
    forward_query-Visible numbers host ops moment tables (headers "acme/ops" (some "good")) "b"
      empty after_ops ops_answer ops_run
      (redacted_hit numbers
        (record {
          unit = unit "ku1";
          similarity = 3;
          enterprise_id = "acme";
          group_id = "eng";
          cross_group_allowed = false;
        })
        ("detail" ∷ "action" ∷ []))
      (inr (inl refl))

-- another Enterprise, under a consent to the summaries
abbrev globex : Request numbers
globex = request "globex/x" "globex" "x"

abbrev globex_answer : Response numbers
globex_answer = response numbers host globex moment "summary_only" (
    redacted_hit numbers
      (record {
        unit = unit "ku2";
        similarity = 7;
        enterprise_id = "acme";
        group_id = "ops";
        cross_group_allowed = false;
      })
      ("detail" ∷ "action" ∷ [])
    ∷ redacted_hit numbers
        (record {
          unit = unit "ku1";
          similarity = 3;
          enterprise_id = "acme";
          group_id = "eng";
          cross_group_allowed = false;
        })
        ("detail" ∷ "action" ∷ [])
    ∷ [])

abbrev after_globex : Log
after_globex = logged numbers host globex moment globex_answer (some "c1") empty

globex_run :
    aigrp_forward_query numbers host tables (headers "globex/x" none) globex "b" moment empty
    ≡ (ok globex_answer, after_globex)
unfolding run
globex_run = refl

forward_query-logged_example :
    (consent_id : Option String) × (after_globex
      ≡ logged numbers host globex moment globex_answer consent_id empty)
    × ((consent_id ≡ none)
        ⊎ ((c : CrossConsent) × Permits numbers host globex moment tables c
            × (consent_id ≡ some c.consent_id)))
forward_query-logged_example =
    forward_query-logged numbers host globex moment tables (headers "globex/x" none) "b" empty
      after_globex globex_answer globex_run

-- Whoever is let in names the Enterprise that the policy is decided for: this one's id is of globex,
-- and it gets a unit of acme in full.
abbrev claimed : Request numbers
claimed = request "globex/x" "acme" "ops"

claimed_run :
    aigrp_forward_query numbers host tables (headers "globex/x" none) claimed "b" moment empty
    ≡ (ok ops_answer, logged numbers host claimed moment ops_answer none empty)
unfolding run
claimed_run = refl

require_forwarder_identity-Proven_example :
    (ops.requester_l2_id ≡ "acme/ops")
    × Proven host tables.peers (headers "acme/ops" (some "good")) "b" "acme/ops"
    × (◌≡◌ {A = Bool} true true
        → (group : String) × (split_once 47 "acme/ops" ≡ some ("acme", group)))
unfolding run
require_forwarder_identity-Proven_example =
    require_forwarder_identity-Proven host tables.peers (headers "acme/ops" (some "good"))
      "acme/ops" "acme/ops" true "b" refl
