-- ===== src/Review.antt =====
-- server/backend/src/cq_server/review.py with the review statements of store/_sqlite.py: how an
-- administrator decides on a knowledge unit, and how undecided ones run out.
pub mod Handlers
pub mod Decisions
pub mod Queue
pub mod Outcome
pub mod Submitted
mod Tests
use th_layer_agent.Common.{
  contains, ◌++◌, length, map, nat_eq, ℕ, String, Bool, true, false, not, ◌&&◌, ◌||◌, Option, none,
  some, List, [], ◌∷◌, ◌==◌, is_some, is_none, if◌then◌else◌, take, drop,
}
use th_layer_agent.Sql.Keys.{by_key}
use th_layer_agent.Sql.{insert, select, fetchone, rowcount, update, delete, order_by}
use th_layer_agent.Reputation.DailyRoot.{text_lt, text_le}

-- One row of `knowledge_units`, in its columns that the review reads or writes.
pub record KnowledgeUnit : Type 0 where
  pub id : String
  pub data_json : String
  pub enterprise_id : String
  pub group_id : String
  pub status : String
  pub reviewed_by : Option String
  pub reviewed_at : Option String
  pub pending_review_reason : Option String
  pub pending_review_expires_at : Option String

-- One row of `knowledge_unit_domains`.
pub record DomainRow : Type 0 where
  pub unit_id : String
  pub domain : String

pub record Tables : Type 0 where
  pub units : List KnowledgeUnit
  pub domains : List DomainRow

-- The tenant that a statement is limited to; a group alone limits nothing.
unfoldable pub in_scope : Option String → Option String → KnowledgeUnit → Bool
in_scope (some enterprise_id) (some group_id) r =
    (r.enterprise_id == enterprise_id) && (r.group_id == group_id)
in_scope (some enterprise_id) none r = r.enterprise_id == enterprise_id
in_scope none group_id r = true

abbrev pub scoped : String → Option String → Option String → KnowledgeUnit → Bool
scoped unit_id enterprise_id group_id r = (r.id == unit_id) && in_scope enterprise_id group_id r

-- status IN ('approved', 'rejected', 'dropped')
unfoldable pub is_terminal : String → Bool
is_terminal status = (status == "approved") || (status == "rejected") || (status == "dropped")

unfoldable pub get_review_status :
    String → Option String → Option String → Tables → Option KnowledgeUnit
get_review_status unit_id enterprise_id group_id db =
    fetchone (scoped unit_id enterprise_id group_id) db.units

-- WHERE ... AND status NOT IN (...)
abbrev pub undecided : String → Option String → Option String → KnowledgeUnit → Bool
undecided unit_id enterprise_id group_id r =
    scoped unit_id enterprise_id group_id r && not (is_terminal r.status)

abbrev pub decided_row : String → String → String → KnowledgeUnit → KnowledgeUnit
decided_row status reviewed_by reviewed_at r = record r {
  status = status;
  reviewed_by = some reviewed_by;
  reviewed_at = some reviewed_at;
}

-- `none` is the KeyError, `some false` a unit that is decided already.
unfoldable pub set_review_status :
    String
    → String
    → String
    → Option String
    → Option String
    → String
    → Tables
    → Option Bool × Tables
set_review_status unit_id status reviewed_by enterprise_id group_id reviewed_at db =
    if nat_eq (rowcount (undecided unit_id enterprise_id group_id) db.units) 0
    then (if is_none (fetchone (scoped unit_id enterprise_id group_id) db.units)
        then (none, db)
        else (some false, db))
    else (
      some true,
      record db {
        units =
            update (undecided unit_id enterprise_id group_id)
              (decided_row status reviewed_by reviewed_at) db.units;
      },
    )

-- A unit to insert: its id, its domains, and its JSON text for given domains.
pub record NewUnit : Type 0 where
  pub id : String
  pub domains : List String
  pub model_dump_json : List String → String

-- `dict.fromkeys`: the first of equal texts stays.
unfoldable pub dedupe : List String → List String → List String
dedupe seen [] = []
dedupe seen (d ∷ ds) = if contains seen d then dedupe seen ds else d ∷ dedupe (d ∷ seen) ds

-- `strip` and `lower` are the methods of Python's `str`.
unfoldable pub normalize_domains : (String → String) → (String → String) → List String → List String
unfolding dedupe
normalize_domains strip lower domains =
    dedupe [] (map (λ d. lower (strip d)) (select (λ d. not (strip d == "")) domains))

unfoldable pub inserted_row : NewUnit → List String → String → String → KnowledgeUnit
inserted_row unit domains enterprise_id group_id = record {
  id = unit.id;
  data_json = unit.model_dump_json domains;
  enterprise_id = enterprise_id;
  group_id = group_id;
  status = "pending";
  reviewed_by = none;
  reviewed_at = none;
  pending_review_reason = none;
  pending_review_expires_at = none;
}

-- The rows of a unit with a tenancy, in one transaction; `false` is the ValueError for no domains, or
-- the refusal of an id that is taken.
unfoldable pub insert_unit :
    (String → String) → (String → String) → NewUnit → String → String → Tables → Bool × Tables
unfolding normalize_domains inserted_row
insert_unit strip lower unit enterprise_id group_id db =
    let domains = normalize_domains strip lower unit.domains in
    if nat_eq (length domains) 0
    then (false, db)
    else if is_some (fetchone (by_key (λ r. r.id) unit.id) db.units)
    then (false, db)
    else (
      true,
      record {
        units = insert (inserted_row unit domains enterprise_id group_id) db.units;
        domains = db.domains ++ map (λ d. record { unit_id = unit.id; domain = d }) domains;
      },
    )

abbrev pub held_row : String → String → KnowledgeUnit → KnowledgeUnit
held_row reason expires_at r = record r {
  status = "pending_review";
  pending_review_reason = some reason;
  pending_review_expires_at = some expires_at;
}

-- The INSERT, then an UPDATE in a transaction of its own.
unfoldable pub submit_pending_review :
    (String → String)
    → (String → String)
    → NewUnit
    → String
    → String
    → String
    → String
    → Tables
    → Bool × Tables
unfolding insert_unit
submit_pending_review strip lower unit reason expires_at enterprise_id group_id db =
    let inserted = insert_unit strip lower unit enterprise_id group_id db in
    if inserted.0
    then (
      true,
      record {
        units = update (by_key (λ r. r.id) unit.id) (held_row reason expires_at) inserted.1.units;
        domains = inserted.1.domains;
      },
    )
    else inserted

-- expires_at IS NULL OR expires_at > now
abbrev pub not_expired : String → KnowledgeUnit → Bool
not_expired now_iso r = elim r.pending_review_expires_at [
  | none ↦ true
  | some t ↦ text_lt now_iso t
]

unfoldable pub visible : String → Option String → String → KnowledgeUnit → Bool
unfolding in_scope
visible enterprise_id group_id now_iso r =
    (r.status == "pending_review")
    && in_scope (some enterprise_id) group_id r
    && not_expired now_iso r

-- ORDER BY pending_review_expires_at ASC: SQLite sorts NULL first.
abbrev pub sooner : KnowledgeUnit → KnowledgeUnit → Bool
sooner a b = elim a.pending_review_expires_at [
  | none ↦ true
  | some t ↦ elim b.pending_review_expires_at [ none ↦ false | some u ↦ text_le t u ]
]

unfoldable pub list_pending_review :
    String → Option String → ℕ → ℕ → String → Tables → List KnowledgeUnit
list_pending_review enterprise_id group_id limit offset now_iso db =
    take limit
      (drop offset (order_by sooner (select (visible enterprise_id group_id now_iso) db.units)))

unfoldable pub count_pending_review : String → Option String → String → Tables → ℕ
count_pending_review enterprise_id group_id now_iso db =
    rowcount (visible enterprise_id group_id now_iso) db.units

-- expires_at IS NOT NULL AND expires_at < now
unfoldable pub overdue : String → String → KnowledgeUnit → Bool
overdue enterprise_id now_iso r =
    (r.status == "pending_review")
    && (r.enterprise_id == enterprise_id)
    && (elim r.pending_review_expires_at [ none ↦ false | some t ↦ text_lt t now_iso ])

-- id IN (...)
unfoldable pub id_in : List String → KnowledgeUnit → Bool
id_in [] r = false
id_in (i ∷ ids) r = (r.id == i) || id_in ids r

unfoldable pub expire_pending_reviews : String → String → String → Tables → List String × Tables
unfolding overdue id_in
expire_pending_reviews enterprise_id now_iso reviewed_at db =
    let ids = map (λ r. r.id) (select (overdue enterprise_id now_iso) db.units) in
    (
      ids,
      record db {
        units =
            update (id_in ids) (decided_row "dropped" "ttl_expired_sweeper" reviewed_at) db.units;
      },
    )

-- The unit's own scope is checked first; the DELETE itself is by id.
unfoldable pub delete_unit_row : String → Option String → Option String → Tables → Bool × Tables
delete_unit_row unit_id enterprise_id group_id db =
    if is_some enterprise_id && is_none (fetchone (scoped unit_id enterprise_id group_id) db.units)
    then (false, db)
    else (
      not (nat_eq (rowcount (λ r. r.id == unit_id) db.units) 0),
      record {
        units = delete (λ r. r.id == unit_id) db.units;
        domains = delete (λ d. d.unit_id == unit_id) db.domains;
      },
    )
