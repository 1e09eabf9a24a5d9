-- ===== src/Reputation/Tests.antt =====
-- The reputation log at concrete calls, over the hash of the samples.
use th_layer_agent.Common.{
  nat_eq, ℕ, ◌≡◌, refl, String, str_append, List, [], ◌∷◌, Option, none, some, Bool, true, false,
  ◌↔◌, length, subst,
}
use th_layer_agent.Sql.{select, fetchone, order_by}
use th_layer_agent.Crypto.{rstrip_equals, sign_raw, verify_raw, b64u_decode, equals_signs}
use th_layer_agent.Merkle.{Bytes, after_prefix, merkle_root}
use th_layer_agent.Merkle.Sample.{toy}
use th_layer_agent.Reputation.{
  upsert_chain_meta, event_row, event_payload, Db, Host, Event, Root, Statement, upsert_meta,
  event_enterprise, EventRequest, Drawn, record_event, genesis_prev_hash, read_chain_meta,
}
use th_layer_agent.Reputation.Chain.{IsChained, chain, record_event-IsChained}
use th_layer_agent.Reputation.Verifier.{
  verify_chain, verify_event_payload_hashes, verify_root, RootReport,
}
use th_layer_agent.Reputation.Verifier.Linkage.{
  LinkedBehind, verify_chain-ok, verify_chain-broken, BreaksAt,
}
use th_layer_agent.Reputation.Verifier.Order.{Call, replay, empty_db, read_events}
use th_layer_agent.Reputation.Verifier.Accepts.{empty-IsChained, verifier_accepts}
use th_layer_agent.Reputation.DailyRoot.{compute_root_for_day, existing_root, read_day_events}
use th_layer_agent.Reputation.DailyRoot.Once.{
  compute_root_for_day-again, compute_root_for_day-IsChained,
}
use th_layer_agent.Reputation.DailyRoot.Verifies.{IsSigning, verify_root-compute}

abbrev starts_with_7 : Bytes → Bool
starts_with_7 [] = false
starts_with_7 (b ∷ signature) = nat_eq b 7

-- A host that signs: the signature is a fixed one, which the sample verifier accepts.
abbrev host : Host String
host = record {
  hashing = toy;
  dumps = λ p. some (str_append p.event_id (str_append "|" (str_append p.prev_event_hash p.body)));
  dumps_root = λ r. str_append r.enterprise_id r.merkle_root_hash;
  private_key = some "key";
  public_key_b64u = some "pub";
  urlsafe_b64encode = toy.to_hex;
  sign = λ key message. 7 ∷ [];
  ed = record {
    urlsafe_b64decode = λ s. toy.from_hex (rstrip_equals s);
    from_public_bytes = λ b. some b;
    verify = λ key signature message. starts_with_7 signature;
    encode = toy.encode;
  };
  cq_enterprise = some "acme";
  cq_group = none;
}

host-IsSigning : IsSigning host
unfolding sign_raw verify_raw b64u_decode equals_signs rstrip_equals
host-IsSigning = record {
  accepts = λ key public_key message k p.
      let same : "pub" ≡ public_key = cc in
      let holds : verify_raw host.ed "pub" message
            (sign_raw host.urlsafe_b64encode host.sign key message)
          ≡ true =
        refl in
      subst
        (λ t.
          verify_raw host.ed t message (sign_raw host.urlsafe_b64encode host.sign key message)
          ≡ true)
        same holds;
}

abbrev request : String → EventRequest String
request body = record {
  event_type = "ku.event";
  body = body;
  enterprise_id = none;
  l2_id = none;
  ts = some "2026-05-01T10:00:00Z";
}

abbrev drawn : String → Drawn
drawn event_id = record { event_id = event_id; now_ts = "t1"; now_created = "t2"; now_meta = "t3" }

abbrev healthy : Statement → Bool
healthy s = false

-- the upsert of the chain's head fails, the rollback does not
abbrev no_upsert : Statement → Bool
no_upsert upsert_meta = true
no_upsert _ = false

abbrev one_event : Db
one_event = (record_event host healthy (request "a") (drawn "evt_1") (empty_db host)).1

run : Unit {0}
unfolding record_event select fetchone verify_chain verify_event_payload_hashes compute_root_for_day
    verify_root chain replay upsert_chain_meta event_row event_payload merkle_root order_by
    read_chain_meta
run = tt

-- A failed upsert leaves no event behind.
record_event-no_upsert :
    record_event host no_upsert (request "b") (drawn "evt_2") one_event ≡ (none, one_event)
unfolding run
record_event-no_upsert = refl

-- The same event id is refused by the table's primary key.
record_event-same_id :
    record_event host healthy (request "b") (drawn "evt_1") one_event ≡ (none, one_event)
unfolding run
record_event-same_id = refl

one_event-IsChained : IsChained host one_event
one_event-IsChained =
    record_event-IsChained host healthy (request "a") (drawn "evt_1") (empty_db host) refl
      (empty-IsChained host)

record_event-IsChained_example :
    IsChained host (record_event host no_upsert (request "b") (drawn "evt_2") one_event).1
record_event-IsChained_example =
    record_event-IsChained host no_upsert (request "b") (drawn "evt_2") one_event refl
      one_event-IsChained

abbrev calls : List (Call host)
calls =
    record { fails = healthy; rolls_back = refl; req = request "a"; drawn = drawn "evt_1" }
    ∷ record { fails = no_upsert; rolls_back = refl; req = request "b"; drawn = drawn "evt_2" }
    ∷ record { fails = healthy; rolls_back = refl; req = request "c"; drawn = drawn "evt_3" }
    ∷ []

verifier_accepts_example :
    ((verify_chain (read_events "acme" (replay host calls (empty_db host)))).ok ≡ true)
    × ((verify_event_payload_hashes host
          (read_events "acme" (replay host calls (empty_db host)))).ok
        ≡ true)
unfolding select event_enterprise
verifier_accepts_example =
    verifier_accepts host calls "acme" ((refl, (refl, tt)), ((refl, tt), (tt, tt)))

-- Two events of the same second, the first with the greater id: they are read the other way round,
-- and the chain counts as broken.
abbrev same_second : Db
same_second =
    (record_event host healthy (request "b") (drawn "evt_1")
      (record_event host healthy (request "a") (drawn "evt_2") (empty_db host)).1).1

same_second_run : (verify_chain (read_events "acme" same_second)).ok ≡ false
unfolding run read_events
same_second_run = refl

length-chain : length (chain "acme" (replay host calls (empty_db host))) ≡ 2
unfolding run
length-chain = refl

abbrev forged : Event
forged = record {
  event_id = "evt_9";
  event_type = "ku.event";
  enterprise_id = "acme";
  l2_id = "acme/x";
  ts = "2026-05-01T11:00:00Z";
  prev_event_hash = "sha256:forged";
  payload_canonical = "{}";
  payload_hash = "sha256:00";
  signature_b64u = none;
  signing_key_id = none;
  created_at = "t";
}

abbrev genuine : Event
genuine = record forged { event_id = "evt_8"; prev_event_hash = genesis_prev_hash }

verify_chain-ok_example :
    ((verify_chain (genuine ∷ forged ∷ [])).ok ≡ true) ↔ LinkedBehind (genuine ∷ forged ∷ [])
verify_chain-ok_example = verify_chain-ok (genuine ∷ forged ∷ [])

forged_fails : (verify_chain (genuine ∷ forged ∷ [])).ok ≡ false
unfolding run
forged_fails = refl

verify_chain-broken_example :
    (i : ℕ) × (event_id : String) × ((verify_chain (genuine ∷ forged ∷ [])).broken_at_index
      ≡ some i)
    × ((verify_chain (genuine ∷ forged ∷ [])).broken_event_id ≡ some event_id)
    × BreaksAt (genuine ∷ forged ∷ []) i event_id
verify_chain-broken_example = verify_chain-broken (genuine ∷ forged ∷ []) forged_fails

abbrev day_root : Option Root
day_root = (compute_root_for_day host "acme" "2026-05-01" "now" one_event).0

abbrev root_of : Option Root → Root
root_of none = record {
  enterprise_id = "";
  root_date = "";
  event_count = 0;
  merkle_root_hash = "";
  first_event_id = none;
  last_event_id = none;
  signature_b64u = none;
  signing_key_id = none;
  computed_at = "";
  published_to_directory_at = none;
}
root_of (some r) = r

computed : day_root ≡ some (root_of day_root)
unfolding run
computed = refl

no_root_before : existing_root "acme" "2026-05-01" one_event ≡ none
unfolding run existing_root
no_root_before = refl

compute_root_for_day-again_example :
    compute_root_for_day host "acme" "2026-05-01" "later"
      (compute_root_for_day host "acme" "2026-05-01" "now" one_event).1
    ≡ (some (root_of day_root), (compute_root_for_day host "acme" "2026-05-01" "now" one_event).1)
compute_root_for_day-again_example =
    compute_root_for_day-again host "acme" "2026-05-01" "now" one_event "later" (root_of day_root)
      computed

compute_root_for_day-IsChained_example :
    IsChained host (compute_root_for_day host "acme" "2026-05-01" "now" one_event).1
compute_root_for_day-IsChained_example =
    compute_root_for_day-IsChained host "acme" "2026-05-01" "now" one_event one_event-IsChained

verify_root-compute_example :
    (report : RootReport) × (verify_root host
        (root_of day_root)
        (read_day_events "acme" "2026-05-01" one_event)
      ≡ some report)
    × (report.ok ≡ true)
    × (report.expected_root ≡ (root_of day_root).merkle_root_hash)
    × ((root_of day_root).event_count ≡ length (read_day_events "acme" "2026-05-01" one_event))
verify_root-compute_example =
    verify_root-compute host host-IsSigning "acme" "2026-05-01" "now" one_event (root_of day_root)
      no_root_before computed

-- An event whose hash has no prefix: the check of the root ends with the exception of `merkle_root`.
unprefixed_run :
    verify_root host (root_of day_root) (record forged { payload_hash = "00" } ∷ []) ≡ none
unfolding run after_prefix
unprefixed_run = refl
