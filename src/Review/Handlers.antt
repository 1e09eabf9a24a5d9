-- ===== src/Review/Handlers.antt =====
-- review.py: the handlers over the review tables and the reputation log.
use th_layer_agent.Common.{
  ℕ, String, Bool, true, false, not, ◌||◌, Option, none, some, List, ◌==◌, if◌then◌else◌,
}
use th_layer_agent.Common.Exec.{Exec, pure, raise, raise_if, some_or, get, put, ◌>>=◌, ◌>>◌}
use th_layer_agent.Sql.{fetchone}
use th_layer_agent.Reputation.{Statement, Drawn, record_event}
use th_layer_agent.Reputation
use th_layer_agent.Review.{
  KnowledgeUnit, Tables, get_review_status, set_review_status, list_pending_review,
  count_pending_review, expire_pending_reviews, delete_unit_row,
}

-- One row of `users`.
pub record User : Type 0 where
  pub username : String
  pub enterprise_id : String
  pub group_id : Option String

pub record Db : Type 0 where
  pub users : List User
  pub tables : Tables
  pub reputation : Reputation.Db

-- The body of a `ku.event`.
pub record KuEvent : Type 0 where
  pub unit_id : String
  pub verb : String
  pub enterprise_id : String
  pub by : String

pub record ReviewDecision : Type 0 where
  pub unit_id : String
  pub status : String
  pub reviewed_by : String
  pub reviewed_at : String

-- The answers of a handler that is refused.
pub data HttpError : Type 0 where
  user_not_found_401 not_found_404 conflict_409 assertion_500 : HttpError

-- The lower-cased value of PER_L2_ISOLATION, and the reputation log with what fails in it.
pub record Host : Type 0 where
  pub per_l2_isolation : String
  pub reputation : Reputation.Host KuEvent
  pub fails : Statement → Bool

-- What one call draws: the time of its UPDATE, and what `record_event` draws.
pub record Reading : Type 0 where
  pub reviewed_at : String
  pub event : Drawn

module _ (host : Host) where
  unfoldable pub per_l2_isolation_enabled : Bool
  per_l2_isolation_enabled =
      (host.per_l2_isolation == "1")
      || (host.per_l2_isolation == "true")
      || (host.per_l2_isolation == "yes")

  unfoldable pub scope_filter : String → Option String → String × Option String
  unfolding per_l2_isolation_enabled
  scope_filter enterprise_id group_id =
      (enterprise_id, if per_l2_isolation_enabled then group_id else none)

  unfoldable pub admin_scope : String → Exec HttpError Db (String × Option String)
  unfolding scope_filter
  admin_scope username = do
    db ← get
    user ← some_or (fetchone (λ u. u.username == username) db.users) user_not_found_401
    pure (scope_filter user.enterprise_id user.group_id)

  -- The event is best-effort: what `record_event` returns is not looked at.
  unfoldable pub hook_ku_event :
      String → String → String → String → Drawn → Exec HttpError Db (Unit {0})
  hook_ku_event unit_id verb enterprise_id by drawn = do
    db ← get
    put (record db {
      reputation =
          (record_event host.reputation host.fails
            (record {
              event_type = "ku.event";
              body = record {
                unit_id = unit_id;
                verb = verb;
                enterprise_id = enterprise_id;
                by = by;
              };
              enterprise_id = some enterprise_id;
              l2_id = none;
              ts = none;
            })
            drawn db.reputation).1;
    })

  unfoldable pub build_decision : String → KnowledgeUnit → Exec HttpError Db ReviewDecision
  build_decision unit_id row = do
    reviewed_by ← some_or row.reviewed_by assertion_500
    reviewed_at ← some_or row.reviewed_at assertion_500
    pure (record {
      unit_id = unit_id;
      status = row.status;
      reviewed_by = reviewed_by;
      reviewed_at = reviewed_at;
    })

  abbrev pub is_pending : String → Bool
  is_pending status = (status == "pending") || (status == "pending_review")

  -- `won` of the UPDATE: the KeyError is a 404 and a lost race a 409
  unfoldable pub won_or_refused : Option Bool → Exec HttpError Db (Unit {0})
  won_or_refused none = raise not_found_404
  won_or_refused (some false) = raise conflict_409
  won_or_refused (some true) = pure tt

  -- The common body of the two handlers. `meanwhile` is what other requests write between the read
  -- of the status and the UPDATE.
  unfoldable pub resolve_unit :
      String
      → (String → String)
      → (Tables → Tables)
      → String
      → String
      → Reading
      → Exec HttpError Db ReviewDecision
  unfolding admin_scope won_or_refused hook_ku_event build_decision
  resolve_unit verb target meanwhile unit_id username reading = do
    scope ← admin_scope username
    db ← get
    seen ← some_or (get_review_status unit_id (some scope.0) scope.1 db.tables) not_found_404
    raise_if (not (is_pending seen.status)) conflict_409
    let set =
        set_review_status unit_id (target seen.status) username (some scope.0) scope.1
          reading.reviewed_at (meanwhile db.tables)
    put (record db { tables = set.1 })
    won_or_refused set.0
    updated ← some_or (get_review_status unit_id (some scope.0) scope.1 set.1) assertion_500
    hook_ku_event unit_id verb scope.0 username reading.event
    build_decision unit_id updated

  unfoldable pub approve_unit :
      (Tables → Tables) → String → String → Reading → Exec HttpError Db ReviewDecision
  unfolding resolve_unit
  approve_unit meanwhile unit_id username reading =
      resolve_unit "approve" (λ status. "approved") meanwhile unit_id username reading

  unfoldable pub reject_unit :
      (Tables → Tables) → String → String → Reading → Exec HttpError Db ReviewDecision
  unfolding resolve_unit
  reject_unit meanwhile unit_id username reading =
      resolve_unit "reject" (λ status. if status == "pending_review" then "dropped" else "rejected")
        meanwhile unit_id username reading

  unfoldable pub delete_unit : String → String → Exec HttpError Db (Unit {0})
  unfolding admin_scope
  delete_unit unit_id username = do
    scope ← admin_scope username
    db ← get
    let deleted = delete_unit_row unit_id (some scope.0) scope.1 db.tables
    put (record db { tables = deleted.1 })
    raise_if (not deleted.0) not_found_404

  -- The page and the total; the sweep runs after the response, at clocks of its own.
  unfoldable pub pending_review_queue :
      String
      → ℕ
      → ℕ
      → String
      → String
      → String
      → String
      → Exec HttpError Db (List KnowledgeUnit × ℕ)
  unfolding admin_scope
  pending_review_queue username limit offset now_list now_count now_sweep reviewed_at = do
    scope ← admin_scope username
    db ← get
    let items = list_pending_review scope.0 scope.1 limit offset now_list db.tables
    let total = count_pending_review scope.0 scope.1 now_count db.tables
    put (record db { tables = (expire_pending_reviews scope.0 now_sweep reviewed_at db.tables).1 })
    pure (items, total)
