-- ===== src/Review/Tests.antt =====
-- Three units of two tenants at the review, with a log that signs nothing.
use th_layer_agent.Common.{
  true, false, none, some, [], ◌∷◌, ◌==◌, ◌≡◌, refl, In, inl, inr, subst, not, ◌||◌, ◌⊎◌, String,
}
use th_layer_agent.Common.Exec.{ok, err}
use th_layer_agent.Sql.{select, fetchone, rowcount, update, order_by}
use th_layer_agent.Sql.Keys.{IsKeyed, by_key}
use th_layer_agent.Reputation.DailyRoot.{text_lt}
use th_layer_agent.Review.{NewUnit, submit_pending_review}
use th_layer_agent.Review.Submitted.{submit_pending_review-visible}
use th_layer_agent.Merkle.Sample.{toy}
use th_layer_agent.Reputation.{record_event}
use th_layer_agent.Review.{
  KnowledgeUnit, Tables, is_terminal, decided_row, get_review_status, set_review_status,
  list_pending_review, count_pending_review, expire_pending_reviews, in_scope, visible, overdue,
  id_in,
}
use th_layer_agent.Review.Handlers.{
  Host, Db, Reading, ReviewDecision, HttpError, conflict_409, resolve_unit, approve_unit,
  reject_unit,
}
use th_layer_agent.Review.Decisions.{
  set_review_status-wins, set_review_status-first, set_review_status-others,
}
use th_layer_agent.Review.Queue.{list_pending_review-sweep}
use th_layer_agent.Review.Outcome.{Resolved, resolve_unit-outcome}

abbrev waiting : KnowledgeUnit
waiting = record {
  id = "u1";
  data_json = "{}";
  enterprise_id = "acme";
  group_id = "a";
  status = "pending_review";
  reviewed_by = none;
  reviewed_at = none;
  pending_review_reason = some "pii";
  pending_review_expires_at = some "2026-05-02";
}

abbrev stale : KnowledgeUnit
stale = record waiting { id = "u2"; pending_review_expires_at = some "2026-04-30" }

abbrev settled : KnowledgeUnit
settled = record waiting { id = "u3"; status = "approved"; pending_review_expires_at = none }

abbrev foreign : KnowledgeUnit
foreign = record waiting { id = "u4"; enterprise_id = "other" }

abbrev tables : Tables
tables = record { units = waiting ∷ stale ∷ settled ∷ foreign ∷ []; domains = [] }

run : Unit {0}
unfolding select fetchone rowcount update order_by set_review_status get_review_status
    list_pending_review count_pending_review expire_pending_reviews in_scope visible overdue id_in
    resolve_unit approve_unit reject_unit is_terminal IsKeyed record_event
run = tt

keyed : IsKeyed (λ r. r.id) tables.units
unfolding run
keyed r (inl e) = subst (λ x. fetchone (λ y. y.id == x.id) tables.units ≡ some x) e refl
keyed r (inr (inl e)) = subst (λ x. fetchone (λ y. y.id == x.id) tables.units ≡ some x) e refl
keyed r (inr (inr (inl e))) = subst (λ x. fetchone (λ y. y.id == x.id) tables.units ≡ some x) e refl
keyed r (inr (inr (inr (inl e)))) =
    subst (λ x. fetchone (λ y. y.id == x.id) tables.units ≡ some x) e refl
keyed r (inr (inr (inr (inr n)))) = absurd n

approved : (set_review_status "u1" "approved" "ann" (some "acme") none "t" tables).0 ≡ some true
unfolding run
approved = refl

approved_is_terminal : is_terminal "approved" ≡ true
unfolding run
approved_is_terminal = refl

-- Another tenant's unit is not found.
set_review_status-foreign :
    (set_review_status "u4" "approved" "ann" (some "acme") none "t" tables).0 ≡ none
unfolding run
set_review_status-foreign = refl

-- The sweep drops the unit that has run out.
expire_pending_reviews-stale : (expire_pending_reviews "acme" "2026-05-01" "t" tables).0 ≡ "u2" ∷ []
unfolding run
expire_pending_reviews-stale = refl

set_review_status-wins_example :
    (row : KnowledgeUnit) × (get_review_status "u1" (some "acme") none tables ≡ some row)
    × (is_terminal row.status ≡ false)
    × (get_review_status "u1"
          (some "acme")
          none
          (set_review_status "u1" "approved" "ann" (some "acme") none "t" tables).1
        ≡ some (decided_row "approved" "ann" "t" row))
set_review_status-wins_example =
    set_review_status-wins "u1" "approved" "ann" (some "acme") none "t" tables keyed approved

set_review_status-first_example :
    set_review_status "u1" "rejected" "bob"
      (some "acme")
      none
      "t2"
      (set_review_status "u1" "approved" "ann" (some "acme") none "t" tables).1
    ≡ (some false, (set_review_status "u1" "approved" "ann" (some "acme") none "t" tables).1)
set_review_status-first_example =
    set_review_status-first "u1" "approved" "ann" (some "acme") none "t" tables "rejected" "bob"
      "t2" approved_is_terminal approved

foreign_out : (is_terminal foreign.status || not (in_scope (some "acme") none foreign)) ≡ true
unfolding run
foreign_out = refl

set_review_status-others_example :
    In foreign (set_review_status "u1" "approved" "ann" (some "acme") none "t" tables).1.units
set_review_status-others_example =
    set_review_status-others "u1" "approved" "ann" (some "acme") none "t" tables foreign
      (inr (inr (inr (inl refl)))) foreign_out

list_pending_review-sweep_example :
    (list_pending_review "acme" none 20 0 "2026-05-01"
        (expire_pending_reviews "acme" "2026-05-01" "t" tables).1
      ≡ list_pending_review "acme" none 20 0 "2026-05-01" tables)
    × (count_pending_review "acme" none "2026-05-01"
          (expire_pending_reviews "acme" "2026-05-01" "t" tables).1
        ≡ count_pending_review "acme" none "2026-05-01" tables)
list_pending_review-sweep_example =
    list_pending_review-sweep "acme" "2026-05-01" "t" tables keyed "acme" none 20 0

abbrev host : Host
host = record {
  per_l2_isolation = "";
  reputation = record {
    hashing = toy;
    dumps = λ p. some p.body.verb;
    dumps_root = λ r. "";
    private_key = none;
    public_key_b64u = none;
    urlsafe_b64encode = toy.to_hex;
    sign = λ key message. [];
    ed = record {
      urlsafe_b64decode = toy.from_hex;
      from_public_bytes = λ b. none;
      verify = λ key signature message. false;
      encode = toy.encode;
    };
    cq_enterprise = none;
    cq_group = none;
  };
  fails = λ s. false;
}

abbrev db : Db
db = record {
  users = record { username = "ann"; enterprise_id = "acme"; group_id = some "a" } ∷ [];
  tables = tables;
  reputation = record { events = []; meta = []; roots = [] };
}

abbrev reading : Reading
reading = record {
  reviewed_at = "t";
  event = record { event_id = "evt_1"; now_ts = "t1"; now_created = "t2"; now_meta = "t3" };
}

-- Rejecting a unit of the pending-review tier drops it.
reject_unit-dropped :
    (reject_unit host (λ t. t) "u1" "ann" reading db).0
    ≡ ok (record { unit_id = "u1"; status = "dropped"; reviewed_by = "ann"; reviewed_at = "t" })
unfolding run
reject_unit-dropped = refl

-- A decision that another administrator makes in between wins.
approve_unit-lost :
    (approve_unit host
      (λ t. (set_review_status "u1" "rejected" "bob" (some "acme") none "s" t).1)
      "u1"
      "ann"
      reading
      db).0
    ≡ err conflict_409
unfolding run
approve_unit-lost = refl

resolve_unit-outcome_example :
    ((error : HttpError) × (resolve_unit host "approve"
          (λ s. "approved")
          (λ t. t)
          "u1"
          "ann"
          reading
          db
        ≡ (err error, db)))
    ⊎ ((error : HttpError) × (resolve_unit host "approve"
            (λ s. "approved")
            (λ t. t)
            "u1"
            "ann"
            reading
            db
          ≡ (err error, record db { tables = tables })))
    ⊎ ((db' : Db) × (decision : ReviewDecision) × (resolve_unit host "approve"
            (λ s. "approved")
            (λ t. t)
            "u1"
            "ann"
            reading
            db
          ≡ (ok decision, db'))
        × Resolved host "approve" (λ s. "approved") (λ t. t) "u1" "ann" reading db db' decision)
resolve_unit-outcome_example =
    resolve_unit-outcome host "approve" (λ s. "approved") (λ t. t) "u1" "ann" reading db keyed

abbrev unit : NewUnit
unit = record { id = "u9"; domains = "api" ∷ "api" ∷ "" ∷ []; model_dump_json = λ domains. "{}" }

submitted :
    (submit_pending_review (λ s. s) (λ s. s) unit "pii" "2026-06-01" "acme" "a" tables).0 ≡ true
unfolding run submit_pending_review
submitted = refl

-- Duplicate and empty domains are dropped.
domains_once :
    (submit_pending_review (λ s. s) (λ s. s) unit "pii" "2026-06-01" "acme" "a" tables).1.domains
    ≡ (record { unit_id = "u9"; domain = "api" } ∷ [])
unfolding run submit_pending_review
domains_once = refl

submit_pending_review-visible_example :
    (row : KnowledgeUnit) × (fetchone
        (by_key (λ r. r.id) "u9")
        (submit_pending_review (λ s. s) (λ s. s) unit "pii" "2026-06-01" "acme" "a" tables).1.units
      ≡ some row)
    × (row.status ≡ "pending_review")
    × (row.pending_review_reason ≡ some "pii")
    × (row.pending_review_expires_at ≡ some "2026-06-01")
    × ((now : String) → visible "acme" (some "a") now row ≡ text_lt now "2026-06-01")
    × IsKeyed
        (λ r. r.id)
        (submit_pending_review (λ s. s) (λ s. s) unit "pii" "2026-06-01" "acme" "a" tables).1.units
submit_pending_review-visible_example =
    submit_pending_review-visible (λ s. s) (λ s. s) unit "pii" "2026-06-01" "acme" "a" tables keyed
      submitted
