-- ===== src/Reputation/Verifier.antt =====
-- server/backend/src/cq_server/reputation_verifier.py: the four checks that an auditor runs on an export
-- of the log, each with its report.
pub mod Linkage
pub mod Order
pub mod Accepts
use th_layer_agent.Common.{
  ℕ, suc, String, Bool, true, false, not, ◌&&◌, ◌||◌, Option, none, some, List, [], ◌∷◌, ◌==◌,
  length, if◌then◌else◌, map, ◌-◌,
}
use th_layer_agent.Crypto.{verify_raw}
use th_layer_agent.Merkle.{merkle_root}
use th_layer_agent.Reputation.{Event, Root, RootPayload, Host, compute_payload_hash}

pub record ChainReport : Type 0 where
  pub ok : Bool
  pub broken_at_index : Option ℕ
  pub broken_event_id : Option String
  pub count : ℕ

pub record HashReport : Type 0 where
  pub ok : Bool
  pub tampered_event_ids : List String
  pub count : ℕ

pub record SignatureReport : Type 0 where
  pub ok : Bool
  pub bad_signature_event_ids : List String
  pub unsigned_count : ℕ
  pub signed_count : ℕ
  pub count : ℕ

pub record RootReport : Type 0 where
  pub ok : Bool
  pub root_matches_events : Bool
  pub signature_valid : Option Bool
  pub expected_root : String
  pub actual_root : String
  pub count : ℕ

-- The loop `for i in range(1, len(events))`, at index `i`, behind the event `previous`. It returns the
-- first index whose event does not name its predecessor's hash, with that event's id.
unfoldable pub first_break : ℕ → Event → List Event → Option (ℕ × String)
first_break i previous [] = none
first_break i previous (e ∷ events) =
    let rest = first_break (suc i) e events in
    if e.prev_event_hash == previous.payload_hash then rest else some (i, e.event_id)

unfoldable pub verify_chain : List Event → ChainReport
unfolding first_break
verify_chain [] = record { ok = true; broken_at_index = none; broken_event_id = none; count = 0 }
verify_chain (e ∷ events) = elim (first_break 1 e events) [
  | none ↦ record {
    ok = true;
    broken_at_index = none;
    broken_event_id = none;
    count = length (e ∷ events);
  }
  | some (i, event_id) ↦ record {
    ok = false;
    broken_at_index = some i;
    broken_event_id = some event_id;
    count = length (e ∷ events);
  }
]

abbrev pub is_empty {ℓ} : {A : Type ℓ} → List A → Bool
is_empty [] = true
is_empty (x ∷ xs) = false

-- Python's truth of a nullable text
abbrev pub is_given : Option String → Bool
is_given none = false
is_given (some s) = not (s == "")

-- the text of a nullable column that was tested before
abbrev pub text_of : Option String → String
text_of none = ""
text_of (some s) = s

-- The dictionary that a root's signature covers.
abbrev pub root_payload : Root → RootPayload
root_payload root = record {
  enterprise_id = root.enterprise_id;
  root_date = root.root_date;
  event_count = root.event_count;
  merkle_root_hash = root.merkle_root_hash;
  first_event_id = root.first_event_id;
  last_event_id = root.last_event_id;
}

-- `sig_valid is not False`
abbrev pub not_false : Option Bool → Bool
not_false none = true
not_false (some b) = b

module _ {Body : Type 0} (host : Host Body) where
  unfoldable pub tampered : List Event → List String
  tampered [] = []
  tampered (e ∷ events) =
      if compute_payload_hash host (host.hashing.encode e.payload_canonical) == e.payload_hash
      then tampered events
      else e.event_id ∷ tampered events

  unfoldable pub verify_event_payload_hashes : List Event → HashReport
  unfolding tampered
  verify_event_payload_hashes events = record {
    ok = is_empty (tampered events);
    tampered_event_ids = tampered events;
    count = length events;
  }

  -- `not sig or not kid`
  abbrev pub is_unsigned : Event → Bool
  is_unsigned e = not (is_given e.signature_b64u) || not (is_given e.signing_key_id)

  unfoldable pub signature_holds : Event → Bool
  unfolding verify_raw
  signature_holds e =
      verify_raw host.ed (text_of e.signing_key_id) (host.hashing.encode e.payload_canonical)
        (text_of e.signature_b64u)

  -- the loop's two accumulators: the bad events' ids, and the number of unsigned events
  unfoldable pub check_signatures : List Event → List String × ℕ
  unfolding signature_holds
  check_signatures [] = ([], 0)
  check_signatures (e ∷ events) =
      let rest = check_signatures events in
      if is_unsigned e
      then (rest.0, suc rest.1)
      else if signature_holds e
      then rest
      else (e.event_id ∷ rest.0, rest.1)

  unfoldable pub verify_event_signatures : List Event → SignatureReport
  unfolding check_signatures
  verify_event_signatures events = record {
    ok = is_empty (check_signatures events).0;
    bad_signature_event_ids = (check_signatures events).0;
    unsigned_count = (check_signatures events).1;
    signed_count = length events - (check_signatures events).1;
    count = length events;
  }

  unfoldable pub root_signature : Root → Option Bool
  unfolding verify_raw
  root_signature root =
      if is_given root.signature_b64u && is_given root.signing_key_id
      then some (
          verify_raw host.ed (text_of root.signing_key_id)
            (host.hashing.encode (host.dumps_root (root_payload root)))
            (text_of root.signature_b64u))
      else none

  -- `none` is the ValueError of `merkle_root` on a hash that is no `sha256:<hex>` text.
  unfoldable pub verify_root : Root → List Event → Option RootReport
  unfolding root_signature
  verify_root root events = elim (merkle_root host.hashing (map (λ e. e.payload_hash) events)) [
    | none ↦ none
    | some recomputed ↦ some (record {
      ok = (recomputed == root.merkle_root_hash) && not_false (root_signature root);
      root_matches_events = recomputed == root.merkle_root_hash;
      signature_valid = root_signature root;
      expected_root = recomputed;
      actual_root = root.merkle_root_hash;
      count = length events;
    })
  ]
