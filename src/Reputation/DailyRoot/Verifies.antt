-- ===== src/Reputation/DailyRoot/Verifies.antt =====
-- reputation_verifier.py on the root that daily_root.py computes, with the events of the day.
use th_layer_agent.Common.{
  String, ◌≡◌, refl, true, none, some, Option-cases, inl, inr, arith, str_eq_refl, List, map,
  length,
}
use th_layer_agent.Crypto.{sign_raw, verify_raw}
use th_layer_agent.Merkle.{Bytes, merkle_root}
use th_layer_agent.Reputation.{Event, Root, Db, Host}
use th_layer_agent.Reputation.DailyRoot.{
  existing_root, read_day_events, new_root, compute_root_for_day,
}
use th_layer_agent.Reputation.Verifier.{
  verify_root, root_signature, root_payload, RootReport, not_false,
}

-- What Ed25519 and base64 are documented to do: the public half of the key accepts what the key
-- signed, both in their text form.
pub record IsSigning {Body : Type 0} (host : Host Body) : Type 0 where
  pub accepts :
      (key public_key : String) (message : Bytes)
      → host.private_key ≡ some key
      → host.public_key_b64u ≡ some public_key
      → verify_raw host.ed public_key message
          (sign_raw host.urlsafe_b64encode host.sign key message)
        ≡ true

module _ {Body : Type 0} (host : Host Body) (signs : IsSigning host) where
  root_signature-new :
      (ent day now : String) (events : List Event) (root_hash : String)
      → not_false (root_signature host (new_root host ent day now events root_hash)) ≡ true
  unfolding root_signature new_root
  root_signature-new ent day now events root_hash = elim (Option-cases host.private_key) [
    | inl absent ↦ ground arith
    | inr (key, keyed) ↦ elim (Option-cases host.public_key_b64u) [
      | inl absent ↦ ground arith
      | inr (public_key, published) ↦ ground (
        arith,
        signs.accepts key public_key
            (host.hashing.encode
              (host.dumps_root (root_payload (new_root host ent day now events root_hash))))
            keyed published,
      )
    ]
  ]

  -- Where a day has no root and one is computed, `verify_root` accepts it against the events of the day:
  -- the recomputed root is the stored one, and the signature, if there is one, holds.
  pub verify_root-compute :
      (ent day now : String) (db : Db) (r : Root)
      → existing_root ent day db ≡ none
      → (compute_root_for_day host ent day now db).0 ≡ some r
      → (report : RootReport) × (verify_root host r (read_day_events ent day db) ≡ some report)
        × (report.ok ≡ true)
        × (report.expected_root ≡ r.merkle_root_hash)
        × (r.event_count ≡ length (read_day_events ent day db))
  unfolding compute_root_for_day verify_root
  verify_root-compute ent day now db r absent h =
      elim (Option-cases
        (merkle_root host.hashing (map (λ e. e.payload_hash) (read_day_events ent day db)))) [
          | inl raised ↦ ground arith
          | inr (root_hash, hashed) ↦
              let events = read_day_events ent day db in
              let row = new_root host ent day now events root_hash in
              let same : r ≡ row = ground arith in
              let root_is : row.merkle_root_hash ≡ root_hash = unfold new_root in refl in
              let count_is : row.event_count ≡ length events = unfold new_root in refl in
              (
                record {
                  ok = true;
                  root_matches_events = true;
                  signature_valid = root_signature host r;
                  expected_root = root_hash;
                  actual_root = r.merkle_root_hash;
                  count = length events;
                },
                ground
                    (arith, root_signature-new ent day now events root_hash, str_eq_refl root_hash),
                refl,
                ground arith,
                ground arith,
              )
        ]
