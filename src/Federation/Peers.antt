-- ===== src/Federation/Peers.antt =====
-- aigrp/federation.py: the choice of the peers that a query is sent to.
use th_layer_agent.Common.{
  String, Bool, true, false, Option, none, some, List, [], ◌∷◌, ◌==◌, given, if◌then◌else◌,
}
use th_layer_agent.Merkle.{Bytes}
use th_layer_agent.Federation.Bloom.{Hashes, bloom_matches_any}
use th_layer_agent.Federation.Endpoint.{Texts, endpoint_is_safe}

-- A peer's row, in the members that are read.
pub record Peer : Type 0 where
  pub l2_id : String
  pub endpoint_url : Option String
  pub domain_bloom : Option Bytes

-- `[d for d in query_domains if d]`
unfoldable pub given_domains : List String → List String
given_domains [] = []
given_domains (d ∷ domains) = let rest = given_domains domains in if d == "" then rest else d ∷ rest

module _ (lib : Hashes) where
  -- The prefilter lets the peer pass: there are no domains, or it has no filter, or the filter
  -- claims one of them.
  unfoldable pub passes_bloom : Option Bytes → List String → Option Bool
  unfolding bloom_matches_any
  passes_bloom bloom [] = some true
  passes_bloom none (d ∷ domains) = some true
  passes_bloom (some []) (d ∷ domains) = some true
  passes_bloom (some (b ∷ bloom)) (d ∷ domains) = bloom_matches_any lib (b ∷ bloom) (d ∷ domains)

module _ (lib : Hashes) (texts : Texts) (self_id : String) where
  -- The body of the loop: whether the peer is appended.
  unfoldable pub is_selected : List String → Peer → Option Bool
  unfolding passes_bloom endpoint_is_safe
  is_selected domains peer =
      if peer.l2_id == self_id then some false else elim (given peer.endpoint_url) [
        | none ↦ some false
        | some url ↦ elim (endpoint_is_safe texts url) [
          | none ↦ none
          | some false ↦ some false
          | some true ↦ passes_bloom lib peer.domain_bloom domains
        ]
      ]

  unfoldable pub select_loop : List String → List Peer → Option (List Peer)
  unfolding is_selected
  select_loop domains [] = some []
  select_loop domains (peer ∷ peers) =
      let rest = select_loop domains peers in
      elim (is_selected domains peer) [
        | none ↦ none
        | some false ↦ rest
        | some true ↦ elim rest [ none ↦ none | some selected ↦ some (peer ∷ selected) ]
      ]

  -- `none` is an exception that the choice does not catch.
  unfoldable pub select_peers_for_query : List Peer → List String → Option (List Peer)
  unfolding select_loop given_domains
  select_peers_for_query peers query_domains = select_loop (given_domains query_domains) peers
