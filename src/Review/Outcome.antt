-- ===== src/Review/Outcome.antt =====
-- What an approval or a rejection does, whatever other requests write while it runs.
use th_layer_agent.Common.{
  String, true, false, none, some, ◌==◌, ◌≡◌, refl, ◌⊎◌, inl, inr, arith, Bool-cases, Option-cases,
}
use th_layer_agent.Common.Exec.{ok, err}
use th_layer_agent.Sql.{fetchone}
use th_layer_agent.Sql.Keys.{IsKeyed}
use th_layer_agent.Reputation.{record_event}
use th_layer_agent.Review.{
  KnowledgeUnit, Tables, is_terminal, decided_row, get_review_status, set_review_status,
}
use th_layer_agent.Review.Handlers.{
  User, Db, Host, ReviewDecision, HttpError, user_not_found_401, not_found_404, conflict_409,
  Reading, scope_filter, is_pending, hook_ku_event, build_decision, won_or_refused, resolve_unit,
}
use th_layer_agent.Review.Decisions.{set_review_status-wins, set_review_status-cases}

-- The decision that a handler answers with was won on the row of the administrator's tenant, which was
-- undecided when it was written; the row now has it, and the log got one call of `record_event`.
pub record Resolved (host : Host) (verb : String) (target : String → String)
    (meanwhile : Tables → Tables) (unit_id username : String) (reading : Reading) (db db' : Db)
    (decision : ReviewDecision) : Type 0 where
  pub user : User
  pub seen : KnowledgeUnit
  pub row : KnowledgeUnit
  pub known : fetchone (λ u. u.username == username) db.users ≡ some user
  pub found :
      get_review_status unit_id
        (some user.enterprise_id)
        (scope_filter host user.enterprise_id user.group_id).1
        db.tables
      ≡ some seen
  pub was_pending : is_pending host seen.status ≡ true
  pub before :
      get_review_status unit_id
        (some user.enterprise_id)
        (scope_filter host user.enterprise_id user.group_id).1
        (meanwhile db.tables)
      ≡ some row
  pub undecided : is_terminal row.status ≡ false
  pub after :
      get_review_status unit_id
        (some user.enterprise_id)
        (scope_filter host user.enterprise_id user.group_id).1
        db'.tables
      ≡ some (decided_row (target seen.status) username reading.reviewed_at row)
  pub answered : decision ≡ (record {
    unit_id = unit_id;
    status = target seen.status;
    reviewed_by = username;
    reviewed_at = reading.reviewed_at;
  })
  pub logged :
      db'.reputation
      ≡ (record_event host.reputation host.fails
          (record {
            event_type = "ku.event";
            body = record {
              unit_id = unit_id;
              verb = verb;
              enterprise_id = user.enterprise_id;
              by = username;
            };
            enterprise_id = some user.enterprise_id;
            l2_id = none;
            ts = none;
          })
          reading.event
          db.reputation).1

module _ (host : Host) where
  -- Where unit ids are a key of the tables, a decision that is refused leaves the log alone, and the
  -- tables as they were or as the other requests left them; one that succeeds is written on the row of
  -- the administrator's tenant, undecided until then, is read back, and makes one call of
  -- `record_event`.
  pub resolve_unit-outcome :
      (verb : String) (target : String → String) (meanwhile : Tables → Tables)
      (unit_id username : String) (reading : Reading) (db : Db)
      → IsKeyed (λ r. r.id) (meanwhile db.tables).units
      → ((error : HttpError) × (resolve_unit host verb target meanwhile unit_id username reading db
            ≡ (err error, db)))
        ⊎ ((error : HttpError) × (resolve_unit host verb target meanwhile unit_id username reading
                db
              ≡ (err error, record db { tables = meanwhile db.tables })))
        ⊎ ((db' : Db) × (decision : ReviewDecision) × (resolve_unit host verb target meanwhile
                unit_id username reading db
              ≡ (ok decision, db'))
            × Resolved host verb target meanwhile unit_id username reading db db' decision)
  unfolding resolve_unit scope_filter hook_ku_event build_decision won_or_refused
  resolve_unit-outcome verb target meanwhile unit_id username reading db k =
      elim (Option-cases (fetchone (λ u. u.username == username) db.users)) [
        | inl unknown ↦ inl (user_not_found_401, ground arith)
        | inr (user, known) ↦
            let grp = (scope_filter host user.enterprise_id user.group_id).1 in
            elim (Option-cases
              (get_review_status unit_id (some user.enterprise_id) grp db.tables)) [
                | inl absent ↦ inl (not_found_404, ground arith)
                | inr (seen, found) ↦ elim (Bool-cases (is_pending host seen.status)) [
                  | inr other ↦ inl (conflict_409, ground arith)
                  | inl pending ↦
                      let run =
                        set_review_status unit_id (target seen.status) username
                          (some user.enterprise_id) grp reading.reviewed_at (meanwhile db.tables) in
                      elim (set_review_status-cases unit_id (target seen.status) username
                        (some user.enterprise_id) grp reading.reviewed_at (meanwhile db.tables)) [
                          | inl gone ↦ inr (inl (not_found_404, ground arith))
                          | inr (inl lost) ↦ inr (inl (conflict_409, ground arith))
                          | inr (inr won) ↦
                              let (row, before, undecided, after) =
                                set_review_status-wins unit_id (target seen.status) username
                                  (some user.enterprise_id) grp reading.reviewed_at
                                  (meanwhile db.tables) k won in
                              inr (
                                inr (
                                  record db {
                                    tables = run.1;
                                    reputation =
                                        (record_event host.reputation host.fails
                                          (record {
                                            event_type = "ku.event";
                                            body = record {
                                              unit_id = unit_id;
                                              verb = verb;
                                              enterprise_id = user.enterprise_id;
                                              by = username;
                                            };
                                            enterprise_id = some user.enterprise_id;
                                            l2_id = none;
                                            ts = none;
                                          })
                                          reading.event db.reputation).1;
                                  },
                                  record {
                                    unit_id = unit_id;
                                    status = target seen.status;
                                    reviewed_by = username;
                                    reviewed_at = reading.reviewed_at;
                                  },
                                  ground (arith, after, known, found, pending, won),
                                  record {
                                    user = user;
                                    seen = seen;
                                    row = row;
                                    known = known;
                                    found = found;
                                    was_pending = pending;
                                    before = before;
                                    undecided = undecided;
                                    after = after;
                                    answered = refl;
                                    logged = refl;
                                  },
                                ))
                        ]
                ]
              ]
      ]
