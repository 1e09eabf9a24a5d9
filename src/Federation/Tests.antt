-- ===== src/Federation/Tests.antt =====
-- The choice of peers at concrete libraries: the toy hash of the Merkle samples, texts without
-- white space, and one capital letter to lower.
use th_layer_agent.Common.{
  ◌≡◌, refl, subst, String, ◌==◌, Bool, true, false, none, some, List, [], ◌∷◌, given, In, inl, inr,
  if◌then◌else◌, sym, ◌||◌,
}
use th_layer_agent.Merkle.{Bytes}
use th_layer_agent.Merkle.Sample.{toy}
use th_layer_agent.Federation.Bits.{set_bit, test_bit}
use th_layer_agent.Federation.Bloom.{Hashes, compute_domain_bloom, bloom_contains}
use th_layer_agent.Federation.Claimed.{compute_domain_bloom-contains}
use th_layer_agent.Federation.Endpoint.{Texts, endpoint_is_safe}
use th_layer_agent.Federation.Peers.{Peer, select_peers_for_query}
use th_layer_agent.Federation.Selected.{select_peers_for_query-covered}

abbrev lowered : String → String
lowered s = if s == "Db" then "db" else s

abbrev lib : Hashes
lib = record { sha256 = toy.sha256; encode = toy.encode; strip = λ s. s; lower = lowered }

abbrev texts : Texts
texts = record {
  strip = λ s. s;
  lower = lowered;
  isdigit = λ s. s == "20" || s == "40" || s == "²";
  int = λ s. if s == "20" then some 20 else if s == "40" then some 40 else none;
}

set_bit_run : set_bit 1 2 (1 ∷ 3 ∷ 0 ∷ []) ≡ some (1 ∷ 7 ∷ 0 ∷ [])
unfolding set_bit
set_bit_run = refl

set_again_run : set_bit 1 1 (1 ∷ 3 ∷ 0 ∷ []) ≡ some (1 ∷ 3 ∷ 0 ∷ [])
unfolding set_bit
set_again_run = refl

outside_run : test_bit 3 0 (1 ∷ 3 ∷ 0 ∷ []) ≡ none
unfolding test_bit
outside_run = refl

public_run : endpoint_is_safe texts "https://b.example:8443/api" ≡ some true
unfolding endpoint_is_safe
public_run = refl

plain_http_run : endpoint_is_safe texts "http://b.example" ≡ some false
unfolding endpoint_is_safe
plain_http_run = refl

user_info_run : endpoint_is_safe texts "https://b.example@127.0.0.1/" ≡ some false
unfolding endpoint_is_safe
user_info_run = refl

private_172_run : endpoint_is_safe texts "https://172.20.0.1/" ≡ some false
unfolding endpoint_is_safe
private_172_run = refl

public_172_run : endpoint_is_safe texts "https://172.40.0.1/" ≡ some true
unfolding endpoint_is_safe
public_172_run = refl

-- The host of an address in brackets is cut at its first colon, and its loopback address passes.
loopback_v6_run : endpoint_is_safe texts "https://[::1]:8443/" ≡ some true
unfolding endpoint_is_safe
loopback_v6_run = refl

-- A superscript is a digit to `isdigit`, and a ValueError to `int`.
superscript_run : endpoint_is_safe texts "https://172.².example/" ≡ none
unfolding endpoint_is_safe
superscript_run = refl

abbrev built :
    (bloom : Bytes) × (compute_domain_bloom lib ("db" ∷ []) ≡ some bloom)
    × (bloom_contains lib bloom "Db" ≡ some true)
built = compute_domain_bloom-contains lib ("db" ∷ []) "db" "Db" (inl refl) refl refl refl

abbrev peer : Peer
peer = record {
  l2_id = "acme/b";
  endpoint_url = some "https://b.example";
  domain_bloom = some built.0;
}

compute_domain_bloom-contains_example :
    (bloom : Bytes) × (compute_domain_bloom lib ("" ∷ "db" ∷ []) ≡ some bloom)
    × (bloom_contains lib bloom "Db" ≡ some true)
compute_domain_bloom-contains_example =
    compute_domain_bloom-contains lib ("" ∷ "db" ∷ []) "db" "Db" (inr (inl refl)) refl refl refl

peer_is_safe : endpoint_is_safe texts "https://b.example" ≡ some true
unfolding endpoint_is_safe
peer_is_safe = refl

checkable :
    (r : Peer)
    → In r (peer ∷ [])
    → (url : String) → given r.endpoint_url ≡ some url
    → (b : Bool) × (endpoint_is_safe texts url ≡ some b)
checkable r (inl e) url h =
    let f : some "https://b.example" ≡ some url =
      subst (λ x. given x.endpoint_url ≡ some url) (sym e) h in
    let g : "https://b.example" ≡ url = cc in
    (true, subst (λ u. endpoint_is_safe texts u ≡ some true) g peer_is_safe)
checkable r (inr j) url h = absurd j

select_peers_for_query-covered_example :
    (selected : List Peer) × (select_peers_for_query lib texts "acme/a" (peer ∷ []) ("Db" ∷ [])
      ≡ some selected)
    × In peer selected
select_peers_for_query-covered_example =
    select_peers_for_query-covered lib texts "acme/a" (peer ∷ []) ("Db" ∷ []) ("db" ∷ []) peer
      "https://b.example" "db" "Db" built.0 checkable (inl refl) refl refl peer_is_safe built.1 refl
      (inl refl) refl (inl refl) refl refl
