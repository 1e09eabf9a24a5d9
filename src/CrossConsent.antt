-- ===== src/CrossConsent.antt =====
-- store/_sqlite.py: consents between two Enterprises, for a pair of groups or, where a group is NULL,
-- for all of them. The read path picks the most specific one that is in force.
pub mod Found
mod Tests
use th_layer_agent.Common.{
  ℕ, ◌+◌, ltb, String, Bool, true, false, not, ◌&&◌, Option, none, some, List, [], ◌∷◌, ◌==◌,
  opt_eq, is_none, is_some, nat_eq, take, if◌then◌else◌,
}
use th_layer_agent.Sql.{select, fetchone, rowcount, update, insert, order_by}
use th_layer_agent.Sql.Keys.{by_key}
use th_layer_agent.Reputation.DailyRoot.{text_lt, text_le}

-- One row of `cross_enterprise_consents`.
pub record CrossConsent : Type 0 where
  pub consent_id : String
  pub requester_enterprise : String
  pub responder_enterprise : String
  pub requester_group : Option String
  pub responder_group : Option String
  pub policy : String
  pub signed_by_admin : String
  pub signed_at : String
  pub expires_at : Option String
  pub audit_log_id : String

-- The two sides of a query, and the time of it.
pub record Query : Type 0 where
  pub requester_enterprise : String
  pub responder_enterprise : String
  pub requester_group : Option String
  pub responder_group : Option String
  pub now_iso : String

-- expires_at IS NULL OR expires_at > :now
abbrev pub in_force : String → CrossConsent → Bool
in_force now_iso r = elim r.expires_at [ none ↦ true | some t ↦ text_lt now_iso t ]

abbrev pub between : Query → CrossConsent → Bool
between q r =
    (r.requester_enterprise == q.requester_enterprise)
    && (r.responder_enterprise == q.responder_enterprise)
    && in_force q.now_iso r

-- a point for each condition of `_score` that holds
abbrev points : ℕ → Bool → ℕ
points n b = if b then n else 0

-- How specific a consent is for the query: 2 for each group that it names, 1 for each that it leaves
-- open.
unfoldable pub score : Query → CrossConsent → ℕ
score q r =
    points 2 (opt_eq r.requester_group q.requester_group && is_some r.requester_group)
    + points 2 (opt_eq r.responder_group q.responder_group && is_some r.responder_group)
    + points 1 (is_none r.requester_group)
    + points 1 (is_none r.responder_group)

-- the two `continue`s of the loop, negated
unfoldable pub applies : Query → CrossConsent → Bool
applies q r =
    not (is_some r.requester_group && not (opt_eq r.requester_group q.requester_group))
    && not (is_some r.responder_group && not (opt_eq r.responder_group q.responder_group))

-- `score > best_score`, where the score of no row is -1
abbrev pub beats : Query → CrossConsent → Option CrossConsent → Bool
beats q r none = true
beats q r (some best) = ltb (score q best) (score q r)

-- the loop over the rows
unfoldable pub best_of : Query → Option CrossConsent → List CrossConsent → Option CrossConsent
best_of q best [] = best
best_of q best (r ∷ rows) = best_of q (if applies q r && beats q r best then some r else best) rows

unfoldable pub find_cross_enterprise_consent : Query → List CrossConsent → Option CrossConsent
unfolding best_of
find_cross_enterprise_consent q rows = best_of q none (select (between q) rows)

unfoldable pub get_cross_enterprise_consent : String → List CrossConsent → Option CrossConsent
get_cross_enterprise_consent consent_id rows = fetchone (by_key (λ r. r.consent_id) consent_id) rows

-- The consent for exactly this pair of groups.
unfoldable pub find_active_consent_for_pair : Query → List CrossConsent → Option CrossConsent
unfolding get_cross_enterprise_consent
find_active_consent_for_pair q rows =
    elim (fetchone
      (λ r.
        between q r
        && opt_eq r.requester_group q.requester_group
        && opt_eq r.responder_group q.responder_group)
      rows) [ none ↦ none | some r ↦ get_cross_enterprise_consent r.consent_id rows ]

-- `false` is the refusal of an id that is taken.
unfoldable pub insert_cross_enterprise_consent :
    CrossConsent → List CrossConsent → Bool × List CrossConsent
insert_cross_enterprise_consent r rows =
    if is_some (fetchone (by_key (λ c. c.consent_id) r.consent_id) rows)
    then (false, rows)
    else (true, insert r rows)

-- A revocation is an expiry at its time.
unfoldable pub revoke_cross_enterprise_consent :
    String → String → List CrossConsent → Bool × List CrossConsent
revoke_cross_enterprise_consent consent_id revoked_at rows = (
  not (nat_eq (rowcount (by_key (λ c. c.consent_id) consent_id) rows) 0),
  update (by_key (λ c. c.consent_id) consent_id) (λ r. record r { expires_at = some revoked_at })
      rows,
)

unfoldable pub list_cross_enterprise_consents :
    Bool → String → ℕ → List CrossConsent → List CrossConsent
list_cross_enterprise_consents include_expired now_iso limit rows = take limit (
    order_by (λ a b. text_le b.signed_at a.signed_at)
      (if include_expired then rows else select (in_force now_iso) rows))
