-- ===== src/Reputation/Chain/Append.antt =====
-- What one call of `record_event` does to the log.
use th_layer_agent.Common.{
  String, Bool, false, none, some, [], ◌∷◌, ◌++◌, ◌==◌, eq_iff, ◌≡◌, refl, ◌⊎◌, inl, inr, arith,
  if◌then◌else◌, Bool-cases, Option-cases, is_some, ◌||◌,
}
use th_layer_agent.Sql.{fetchone, insert}
use th_layer_agent.Sql.Rows.{
  fetchone-update, fetchone-holds, fetchone-append_none, fetchone-append_some,
}
use th_layer_agent.Reputation.{
  or_default, insert_event, read_meta, upsert_meta, release, event_row, event_payload,
  event_enterprise, Event, ChainMeta, Db, Host, Statement, rollback, savepoint, EventRequest, Drawn,
  compute_payload_hash, sign_canonical_bytes, read_chain_meta, upsert_chain_meta, record_event,
  event_payload, event_enterprise, event_row, read_meta, insert_event,
}

-- `db'` is `db` with the event `e` at the end of its log and at the head of its Enterprise's chain.
pub record Appended {Body : Type 0} (host : Host Body) (db : Db) (e : Event) (db' : Db)
    : Type 0 where
  pub events : db'.events ≡ db.events ++ e ∷ []
  pub roots : db'.roots ≡ db.roots
  pub fresh : fetchone (λ r. r.event_id == e.event_id) db.events ≡ none
  pub prev : e.prev_event_hash ≡ read_chain_meta e.enterprise_id db
  pub hash : e.payload_hash ≡ compute_payload_hash host (host.hashing.encode e.payload_canonical)
  pub signed :
      (e.signature_b64u, e.signing_key_id)
      ≡ sign_canonical_bytes host (host.hashing.encode e.payload_canonical)
  pub heads :
      (ent : String)
      → read_chain_meta ent db'
        ≡ (if e.enterprise_id == ent then e.payload_hash else read_chain_meta ent db)

-- The event of a call: its key and its Enterprise.
pub record IsOf {Body : Type 0} (host : Host Body) (req : EventRequest Body) (drawn : Drawn)
    (e : Event) : Type 0 where
  pub time : e.ts ≡ or_default req.ts drawn.now_ts
  pub id : e.event_id ≡ drawn.event_id
  pub enterprise : e.enterprise_id ≡ event_enterprise host req

read_chain_meta-upsert :
    (ent event_id event_hash now : String) (db : Db) (j : String)
    → read_chain_meta j (upsert_chain_meta ent event_id event_hash now db)
      ≡ (if ent == j then event_hash else read_chain_meta j db)
unfolding read_chain_meta upsert_chain_meta fetchone
read_chain_meta-upsert ent event_id event_hash now db j =
    let by_ent = λ (m : ChainMeta). m.enterprise_id == ent in
    let by_j = λ (m : ChainMeta). m.enterprise_id == j in
    let change = λ (m : ChainMeta). record m {
      last_event_id = event_id;
      last_event_hash = event_hash;
      updated_at = now;
    } in
    let new : ChainMeta = record {
      enterprise_id = ent;
      last_event_id = event_id;
      last_event_hash = event_hash;
      updated_at = now;
      last_root_published_day = none;
    } in
    elim (Option-cases (fetchone by_ent db.meta)) [
      | inl absent ↦ elim (Option-cases (fetchone by_j db.meta)) [
        | inl absent_j ↦
            ground (arith, absent, fetchone-append_none by_j db.meta (new ∷ []) absent_j)
        | inr (m, found_j) ↦ ground (
          arith,
          absent,
          fetchone-append_some by_j db.meta (new ∷ []) found_j,
          fetchone-holds by_j db.meta found_j,
          eq_iff ent j,
        )
      ]
      | inr (m, found) ↦ elim (Option-cases (fetchone by_j db.meta)) [
        | inl absent_j ↦ ground (
          arith,
          found,
          absent_j,
          fetchone-update by_ent by_j change db.meta (λ r. refl),
          eq_iff ent j,
          fetchone-holds by_ent db.meta found,
        )
        | inr (r, found_j) ↦ ground (
          arith,
          found,
          found_j,
          fetchone-update by_ent by_j change db.meta (λ r. refl),
          fetchone-holds by_j db.meta found_j,
          eq_iff ent j,
          eq_iff r.enterprise_id j,
          eq_iff r.enterprise_id ent,
        )
      ]
    ]

module _ (ent event_id event_hash now : String) (db : Db) where
  events-upsert : (upsert_chain_meta ent event_id event_hash now db).events ≡ db.events
  unfolding upsert_chain_meta
  events-upsert = ground arith

  roots-upsert : (upsert_chain_meta ent event_id event_hash now db).roots ≡ db.roots
  unfolding upsert_chain_meta
  roots-upsert = ground arith

module _ {Body : Type 0} (host : Host Body) (fails : Statement → Bool) where
  pub record_event_outcome :
      (req : EventRequest Body) (drawn : Drawn) (db : Db)
      → fails rollback ≡ false
      → (record_event host fails req drawn db ≡ (none, db))
        ⊎ ((db' : Db) × (e : Event) × (record_event host fails req drawn db
              ≡ (some drawn.event_id, db'))
            × Appended host db e db'
            × IsOf host req drawn e)
  unfolding record_event event_row event_payload
  record_event_outcome req drawn db rolls =
      let payload = event_payload host req drawn (read_chain_meta (event_enterprise host req) db) in
      elim (Option-cases (host.dumps payload)) [
        | inl raised ↦ inl (ground arith)
        | inr (canonical, dumped) ↦
            let row = event_row host payload canonical drawn.now_created in
            let db' =
              upsert_chain_meta row.enterprise_id drawn.event_id row.payload_hash drawn.now_meta
                (record db { events = insert row db.events }) in
            elim (Bool-cases (
              fails savepoint
              || fails read_meta
              || fails insert_event
              || fails upsert_meta
              || fails release
              || is_some (fetchone (λ r. r.event_id == drawn.event_id) db.events))) [
                | inl failed ↦ inl (ground arith)
                | inr went ↦ inr (
                  db',
                  row,
                  ground arith,
                  record {
                    events = events-upsert _ _ _ _ _;
                    roots = roots-upsert _ _ _ _ _;
                    fresh = ground arith;
                    prev = refl;
                    hash = refl;
                    signed = refl;
                    heads = λ ent. unfold read_chain_meta in read_chain_meta-upsert _ _ _ _ _ ent;
                  },
                  record { time = refl; id = refl; enterprise = refl },
                )
              ]
      ]
