-- ===== src/Reputation/DailyRoot/Once.antt =====
-- daily_root.py: a day's root that is computed again, and what the computation does to the log.
use th_layer_agent.Common.{
  ◌&&◌, String, ◌≡◌, refl, some, Option-cases, inl, inr, arith, ◌==◌, str_eq_refl, List, ◌∷◌, [],
  map, ◌++◌,
}
use th_layer_agent.Sql.{fetchone}
use th_layer_agent.Sql.Rows.{fetchone-append_none, fetchone-update}
use th_layer_agent.Merkle.{merkle_root}
use th_layer_agent.Reputation.{ChainMeta, Root, Db, Host, read_chain_meta}
use th_layer_agent.Reputation.Chain.{IsChained, chain}
use th_layer_agent.Reputation.DailyRoot.{
  is_root_of, existing_root, read_day_events, new_root, bump_published_day, compute_root_for_day,
  published_before,
}

module _ {Body : Type 0} (host : Host Body) (ent day now : String) (db : Db) where
  existing_root-compute :
      {r : Root}
      → (compute_root_for_day host ent day now db).0 ≡ some r
      → existing_root ent day (compute_root_for_day host ent day now db).1 ≡ some r
  unfolding compute_root_for_day fetchone
  existing_root-compute {r} h = elim (Option-cases (existing_root ent day db)) [
    | inr (old, found) ↦ ground arith
    | inl absent ↦
        elim (Option-cases
          (merkle_root host.hashing (map (λ e. e.payload_hash) (read_day_events ent day db)))) [
            | inl raised ↦ ground arith
            | inr (root_hash, hashed) ↦
                let row = new_root host ent day now (read_day_events ent day db) root_hash in
                ground (
                  arith,
                  fetchone-append_none (is_root_of ent day) db.roots (row ∷ []) absent,
                  str_eq_refl ent,
                  str_eq_refl day,
                )
          ]
  ]

  compute-existing :
      {r : Root}
      → existing_root ent day db ≡ some r
      → compute_root_for_day host ent day now db ≡ (some r, db)
  unfolding compute_root_for_day
  compute-existing found = ground arith

  events-compute : (compute_root_for_day host ent day now db).1.events ≡ db.events
  unfolding compute_root_for_day
  events-compute = ground arith

  read_chain_meta-bump :
      (roots : List Root) (j : String)
      → read_chain_meta j
          (record db { roots = roots; meta = bump_published_day ent day now db.meta })
        ≡ read_chain_meta j db
  unfolding read_chain_meta bump_published_day
  read_chain_meta-bump roots j =
      let due = λ (m : ChainMeta).
        (m.enterprise_id == ent) && published_before day m.last_root_published_day in
      let bump =
        λ (m : ChainMeta). record m { last_root_published_day = some day; updated_at = now } in
      elim (Option-cases (fetchone (λ m. m.enterprise_id == j) db.meta)) [
        | inl absent ↦ ground (
          arith,
          absent,
          fetchone-update due (λ m. m.enterprise_id == j) bump db.meta (λ r. refl),
        )
        | inr (m, found) ↦
            ground (
              arith,
              found,
              fetchone-update due (λ m. m.enterprise_id == j) bump db.meta (λ r. refl),
            )
      ]

  head-compute :
      (j : String)
      → read_chain_meta j (compute_root_for_day host ent day now db).1 ≡ read_chain_meta j db
  unfolding compute_root_for_day
  head-compute j = elim (Option-cases (existing_root ent day db)) [
    | inr (old, found) ↦ ground arith
    | inl absent ↦
        elim (Option-cases
          (merkle_root host.hashing (map (λ e. e.payload_hash) (read_day_events ent day db)))) [
            | inl raised ↦ ground arith
            | inr (root_hash, hashed) ↦
                let row = new_root host ent day now (read_day_events ent day db) root_hash in
                ground (arith, read_chain_meta-bump (db.roots ++ row ∷ []) j)
          ]
  ]

module _ {Body : Type 0} (host : Host Body) (ent day now : String) (db : Db) where
  -- Once a day's root is there, computing it again, at whatever time, returns the same row and changes
  -- nothing.
  pub compute_root_for_day-again :
      (later : String) (r : Root)
      → (compute_root_for_day host ent day now db).0 ≡ some r
      → compute_root_for_day host ent day later (compute_root_for_day host ent day now db).1
        ≡ (some r, (compute_root_for_day host ent day now db).1)
  compute_root_for_day-again later r h =
      compute-existing host ent day later _ (existing_root-compute host ent day now db h)

  -- Computing a root keeps every Enterprise's chain linked, with its head and its hashes.
  pub compute_root_for_day-IsChained :
      IsChained host db → IsChained host (compute_root_for_day host ent day now db).1
  compute_root_for_day-IsChained c = record {
    linked = λ j. unfold chain in rw (events-compute host ent day now db) (c.linked j);
    head = λ j.
        unfold chain in
        rw (events-compute host ent day now db, head-compute host ent day now db j) (c.head j);
    hashed = rw (events-compute host ent day now db) c.hashed;
  }
