-- ===== src/Reputation/Verifier/Accepts.antt =====
-- reputation_verifier.py on the log that reputation.py writes.
use th_layer_agent.Common.{String, true, List, [], ◌∷◌, ◌==◌, eq_iff, ◌≡◌, ◌↔◌, refl, arith, All}
use th_layer_agent.Sql.{select, fetchone}
use th_layer_agent.Sql.Rows.{All-select}
use th_layer_agent.Reputation.{
  Event, Db, Host, genesis_prev_hash, compute_payload_hash, read_chain_meta,
}
use th_layer_agent.Reputation.Chain.{Linked, IsChained, IsHashed, chain, record_event-IsChained}
use th_layer_agent.Sql.Ordered.{Ascending}
use th_layer_agent.Reputation.Verifier.Order.{
  Call, replay, empty_db, read_events, comes_first, calls_of, read_events-chain,
}
use th_layer_agent.Reputation.Verifier.{verify_chain, verify_event_payload_hashes}
use th_layer_agent.Reputation.Verifier.Linkage.{LinkedBehind, verify_chain-ok}

module _ {Body : Type 0} (host : Host Body) where
  -- `verify_event_payload_hashes` reports ok exactly when the hash of every event is that of its
  -- canonical payload.
  pub verify_event_payload_hashes-ok :
      (events : List Event)
      → ((verify_event_payload_hashes host events).ok ≡ true) ↔ All (IsHashed host) events
  unfolding verify_event_payload_hashes
  verify_event_payload_hashes-ok [] = (λ _. tt, λ _. refl)
  verify_event_payload_hashes-ok (e ∷ events) =
      let agrees =
        eq_iff (compute_payload_hash host (host.hashing.encode e.payload_canonical))
          e.payload_hash in
      (
        λ h. ground (arith, agrees, (verify_event_payload_hashes-ok events).0),
        λ a. ground (arith, agrees, (verify_event_payload_hashes-ok events).1 a.1),
      )

  replay-IsChained :
      (calls : List (Call host)) (db : Db)
      → IsChained host db
      → IsChained host (replay host calls db)
  unfolding replay
  replay-IsChained [] db c = c
  replay-IsChained (call ∷ calls) db c =
      replay-IsChained calls _
        (record_event-IsChained host call.fails call.req call.drawn db call.rolls_back c)

  pub empty-IsChained : IsChained host (empty_db host)
  unfolding chain select read_chain_meta fetchone
  empty-IsChained = record { linked = λ ent. tt; head = λ ent. refl; hashed = tt }

  LinkedBehind-of : (prev : String) (events : List Event) → Linked prev events → LinkedBehind events
  LinkedBehind-of prev [] l = tt
  LinkedBehind-of prev (e ∷ events) l = l.1

  -- After any calls of `record_event` on an empty log, those that failed and were rolled back
  -- included, the events of an Enterprise, read by time stamp and then by id, pass `verify_chain` and
  -- `verify_event_payload_hashes`. The condition is that the calls for this Enterprise come in that
  -- order of their time stamps and ids.
  pub verifier_accepts :
      (calls : List (Call host)) (ent : String)
      → Ascending (comes_first host) (calls_of host ent calls)
      → ((verify_chain (read_events ent (replay host calls (empty_db host)))).ok ≡ true)
        × ((verify_event_payload_hashes host
              (read_events ent (replay host calls (empty_db host)))).ok
            ≡ true)
  verifier_accepts calls ent in_order =
      let c = replay-IsChained calls (empty_db host) empty-IsChained in
      rw (read_events-chain host calls ent in_order) (
        (verify_chain-ok _).1 (LinkedBehind-of genesis_prev_hash _ (c.linked ent)),
        (verify_event_payload_hashes-ok _).1 (
            unfold chain in
            All-select (λ e. e.enterprise_id == ent) (IsHashed host)
              (replay host calls (empty_db host)).events c.hashed),
      )
