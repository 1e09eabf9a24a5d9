-- ===== src/CrossConsent/Tests.antt =====
-- A consent for all groups and one for a pair of them.
use th_layer_agent.Common.{
  ◌≤◌, true, false, none, some, List, [], ◌∷◌, ◌==◌, is_some, ◌≡◌, refl, inl, In,
}
use th_layer_agent.Sql.{select, fetchone, rowcount, update}
use th_layer_agent.CrossConsent.{
  CrossConsent, Query, between, score, applies, find_cross_enterprise_consent,
  find_active_consent_for_pair, revoke_cross_enterprise_consent, insert_cross_enterprise_consent,
}
use th_layer_agent.CrossConsent.Found.{
  find_cross_enterprise_consent-best, find_cross_enterprise_consent-found,
  revoke_cross_enterprise_consent-gone,
}

abbrev wide : CrossConsent
wide = record {
  consent_id = "c1";
  requester_enterprise = "acme";
  responder_enterprise = "beta";
  requester_group = none;
  responder_group = none;
  policy = "summary_only";
  signed_by_admin = "ann";
  signed_at = "2026-01-01";
  expires_at = none;
  audit_log_id = "a1";
}

abbrev narrow : CrossConsent
narrow = record wide {
  consent_id = "c2";
  responder_group = some "x";
  expires_at = some "2026-06-01";
}

abbrev rows : List CrossConsent
rows = wide ∷ narrow ∷ []

abbrev query : Query
query = record {
  requester_enterprise = "acme";
  responder_enterprise = "beta";
  requester_group = some "r";
  responder_group = some "x";
  now_iso = "2026-05-01";
}

run : Unit {0}
unfolding find_cross_enterprise_consent find_active_consent_for_pair revoke_cross_enterprise_consent
    insert_cross_enterprise_consent select fetchone rowcount update score applies
run = tt

-- The consent that names the group is found before the one for all.
finds_narrow : find_cross_enterprise_consent query rows ≡ some narrow
unfolding run
finds_narrow = refl

-- The exact pair has no consent of its own.
pair_has_none : find_active_consent_for_pair query rows ≡ none
unfolding run
pair_has_none = refl

find_cross_enterprise_consent-best_example :
    In narrow rows
    × (between query narrow ≡ true)
    × (applies query narrow ≡ true)
    × ((x : CrossConsent)
        → In x rows
        → between query x ≡ true
        → applies query x ≡ true
        → score query x ≤ score query narrow)
find_cross_enterprise_consent-best_example =
    find_cross_enterprise_consent-best query rows narrow finds_narrow

no_other_group : applies query wide ≡ true
unfolding run
no_other_group = refl

find_cross_enterprise_consent-found_example :
    is_some (find_cross_enterprise_consent query rows) ≡ true
find_cross_enterprise_consent-found_example =
    find_cross_enterprise_consent-found query rows wide (inl refl) refl no_other_group

-- Once the narrow one is revoked, the wide one is found.
finds_wide :
    find_cross_enterprise_consent query (revoke_cross_enterprise_consent "c2" "2026-04-30" rows).1
    ≡ some wide
unfolding run
finds_wide = refl

revoke_cross_enterprise_consent-gone_example : (wide.consent_id == "c2") ≡ false
revoke_cross_enterprise_consent-gone_example =
    revoke_cross_enterprise_consent-gone "c2" "2026-04-30" query rows wide refl finds_wide
