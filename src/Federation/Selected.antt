-- ===== src/Federation/Selected.antt =====
-- aigrp/federation.py: the peers that the choice keeps.
use th_layer_agent.Common.{
  ◌≡◌, refl, sym, ap, subst, ◌∙◌, String, ◌==◌, Bool, true, false, Option, none, some, List, [],
  ◌∷◌, given, In, inl, inr, Bool-cases, Option-cases, arith,
}
use th_layer_agent.Merkle.{Bytes}
use th_layer_agent.Federation.Bloom.{
  Hashes, compute_domain_bloom, bloom_contains, bloom_matches_any,
}
use th_layer_agent.Federation.Claimed.{bloom_contains-total, compute_domain_bloom-contains}
use th_layer_agent.Federation.Endpoint.{Texts, endpoint_is_safe}
use th_layer_agent.Federation.Peers.{
  Peer, given_domains, passes_bloom, is_selected, select_loop, select_peers_for_query,
}

In-given_domains :
    (qs : List String) (q : String) → In q qs → q == "" ≡ false → In q (given_domains qs)
unfolding given_domains
In-given_domains [] q i n = absurd i
In-given_domains (d ∷ qs) q (inl e) n =
    let f : d == "" ≡ false = ap (λ x. x == "") e ∙ n in rw f (inl e)
In-given_domains (d ∷ qs) q (inr i) n = elim (Bool-cases (d == "")) [
  | inl t ↦ rw t (In-given_domains qs q i n)
  | inr f ↦ rw f (inr (In-given_domains qs q i n))
]

module _ (lib : Hashes) where
  matches-total :
      (b : Bytes) (ds : List String) → (r : Bool) × (bloom_matches_any lib b ds ≡ some r)
  unfolding bloom_matches_any
  matches-total b [] = (false, refl)
  matches-total b (d ∷ ds) =
      let (t, e) = bloom_contains-total lib b d in
      elim (Bool-cases t) [
        | inl y ↦ (true, rw (bloom_matches_any, e, y) refl)
        | inr n ↦ let (r, er) = matches-total b ds in (r, rw (bloom_matches_any, e, n) er)
      ]

  matches-true :
      (b : Bytes) (ds : List String) (d : String)
      → In d ds
      → bloom_contains lib b d ≡ some true
      → bloom_matches_any lib b ds ≡ some true
  unfolding bloom_matches_any
  matches-true b [] d i c = absurd i
  matches-true b (x ∷ ds) d (inl e) c =
      let cx : bloom_contains lib b x ≡ some true = ap (bloom_contains lib b) e ∙ c in
      rw (bloom_matches_any, cx) refl
  matches-true b (x ∷ ds) d (inr i) c =
      let (t, e) = bloom_contains-total lib b x in
      elim (Bool-cases t) [
        | inl y ↦ rw (bloom_matches_any, e, y) refl
        | inr n ↦ rw (bloom_matches_any, e, n) (matches-true b ds d i c)
      ]

  passes_bloom-total :
      (bloom : Option Bytes) (ds : List String) → (r : Bool) × (passes_bloom lib bloom ds ≡ some r)
  unfolding passes_bloom
  passes_bloom-total bloom [] = (true, refl)
  passes_bloom-total none (d ∷ ds) = (true, refl)
  passes_bloom-total (some []) (d ∷ ds) = (true, refl)
  passes_bloom-total (some (b ∷ bloom)) (d ∷ ds) = matches-total (b ∷ bloom) (d ∷ ds)

  passes_bloom-true :
      (bloom : Bytes) (ds : List String) (d : String)
      → In d ds
      → bloom_contains lib bloom d ≡ some true
      → passes_bloom lib (some bloom) ds ≡ some true
  unfolding passes_bloom
  passes_bloom-true bloom [] d i c = absurd i
  passes_bloom-true [] (x ∷ ds) d i c = refl
  passes_bloom-true (b ∷ bloom) (x ∷ ds) d i c = matches-true (b ∷ bloom) (x ∷ ds) d i c

  module _ (texts : Texts) (self_id : String) where
    -- The check of the peer's endpoint ends without the ValueError of `int`.
    abbrev Checkable : Peer → Type 0
    Checkable p =
        (url : String)
        → given p.endpoint_url ≡ some url
        → (b : Bool) × (endpoint_is_safe texts url ≡ some b)

    is_selected-total :
        (ds : List String) (p : Peer)
        → Checkable p
        → (r : Bool) × (is_selected lib texts self_id ds p ≡ some r)
    unfolding is_selected
    is_selected-total ds p check = elim (Bool-cases (p.l2_id == self_id)) [
      | inl t ↦ (false, rw t refl)
      | inr f ↦ elim (Option-cases (given p.endpoint_url)) [
        | inl n ↦ (false, rw (f, n) refl)
        | inr s ↦
            let (url, eu) = s in
            let (b, eb) = check url eu in
            let (r, er) = passes_bloom-total p.domain_bloom ds in
            elim (Bool-cases b) [
              | inl y ↦ (r, rw (f, eu, eb, y) er)
              | inr n ↦ (false, rw (f, eu, eb, n) refl)
            ]
      ]
    ]

    is_selected-true :
        (ds : List String) (p : Peer) (url : String) (bloom : Bytes)
        → p.l2_id == self_id ≡ false
        → given p.endpoint_url ≡ some url
        → endpoint_is_safe texts url ≡ some true
        → p.domain_bloom ≡ some bloom
        → passes_bloom lib (some bloom) ds ≡ some true
        → is_selected lib texts self_id ds p ≡ some true
    unfolding is_selected
    is_selected-true ds p url bloom ns eu safe ep pass = rw (ns, eu, safe, ep) pass

    is_selected-safe :
        (ds : List String) (p : Peer)
        → is_selected lib texts self_id ds p ≡ some true
        → (p.l2_id == self_id ≡ false)
          × ((url : String) × (given p.endpoint_url ≡ some url)
              × (endpoint_is_safe texts url ≡ some true))
    unfolding is_selected
    is_selected-safe ds p h = elim (Bool-cases (p.l2_id == self_id)) [
      | inl t ↦ absurd (ground arith)
      | inr f ↦ elim (Option-cases (given p.endpoint_url)) [
        | inl n ↦ absurd (ground arith)
        | inr s ↦ let (url, eu) = s in (f, (url, eu, ground arith))
      ]
    ]

    select_loop-only :
        (ds : List String) (peers out : List Peer) (p : Peer)
        → select_loop lib texts self_id ds peers ≡ some out
        → In p out
        → In p peers × (is_selected lib texts self_id ds p ≡ some true)
    unfolding select_loop
    select_loop-only ds [] out p e i = let f : [] ≡ out = cc in absurd (subst (In p) (sym f) i)
    select_loop-only ds (x ∷ peers) out p e i =
        elim (Option-cases (is_selected lib texts self_id ds x)) [
          | inl n ↦ absurd (ground arith)
          | inr s ↦
              let (t, et) = s in
              elim (Bool-cases t) [
                | inr nt ↦
                    let (m, k) = select_loop-only ds peers out p (ground arith) i in (inr m, k)
                | inl y ↦ elim (Option-cases (select_loop lib texts self_id ds peers)) [
                  | inl n ↦ absurd (ground arith)
                  | inr o ↦
                      let (r, er) = o in
                      let f : x ∷ r ≡ out = ground arith in
                      elim (subst (In p) (sym f) i) [
                        | inl q ↦ (
                          inl q,
                          subst (λ z. is_selected lib texts self_id ds z ≡ some true) q
                              (et ∙ ap some y),
                        )
                        | inr j ↦ let (m, k) = select_loop-only ds peers r p er j in (inr m, k)
                      ]
                ]
              ]
        ]

    select_loop-In :
        (ds : List String) (peers : List Peer)
        → ((p : Peer) → In p peers → Checkable p)
        → (out : List Peer) × (select_loop lib texts self_id ds peers ≡ some out)
          × ((p : Peer) → In p peers → is_selected lib texts self_id ds p ≡ some true → In p out)
    unfolding select_loop
    select_loop-In ds [] check = ([], refl, (λ p i s. i))
    select_loop-In ds (x ∷ peers) check =
        let (t, e) = is_selected-total ds x (check x (inl refl)) in
        let (out, eo, f) = select_loop-In ds peers (λ p i. check p (inr i)) in
        elim (Bool-cases t) [
          | inl y ↦ (
            x ∷ out,
            rw (select_loop, e, y, eo) refl,
            (λ p i s. elim i [ inl q ↦ inl q | inr j ↦ inr (f p j s) ]),
          )
          | inr n ↦ (
            out,
            rw (select_loop, e, n) eo,
            (λ p i s. elim i [ inl q ↦ absurd cc | inr j ↦ f p j s ]),
          )
        ]

    -- The choice ends with a list, and the list has each peer of the table that is not this server,
    -- whose endpoint is given and safe, and whose filter is built from domains with one that is not
    -- empty and has, stripped and lowered, the form of a domain in the query that is not empty. The
    -- condition is that the check of each peer's endpoint ends without an exception.
    pub select_peers_for_query-covered :
        (peers : List Peer) (query domains : List String) (p : Peer) (url : String) (d q : String)
        (bloom : Bytes)
        → ((r : Peer) → In r peers → Checkable r)
        → In p peers
        → p.l2_id == self_id ≡ false
        → given p.endpoint_url ≡ some url
        → endpoint_is_safe texts url ≡ some true
        → compute_domain_bloom lib domains ≡ some bloom
        → p.domain_bloom ≡ some bloom
        → In d domains
        → d == "" ≡ false
        → In q query
        → q == "" ≡ false
        → lib.lower (lib.strip q) ≡ lib.lower (lib.strip d)
        → (selected : List Peer) × (select_peers_for_query lib texts self_id peers query
            ≡ some selected)
          × In p selected
    unfolding select_peers_for_query
    select_peers_for_query-covered peers query domains p url d q bloom check ip ns eu safe eb ep id
          nd iq nq same =
        let (b, e, c) = compute_domain_bloom-contains lib domains d q id nd nq same in
        let same_bloom : b ≡ bloom = cc in
        let (out, eo, f) = select_loop-In (given_domains query) peers check in
        (
          out,
          eo,
          f p ip (
              is_selected-true (given_domains query) p url bloom ns eu safe ep (
                passes_bloom-true bloom (given_domains query) q (In-given_domains query q iq nq)
                  (subst (λ x. bloom_contains lib x q ≡ some true) same_bloom c))),
        )

    -- A peer that the choice keeps is one of the table, is not this server, and has an endpoint that
    -- is given and safe.
    pub select_peers_for_query-safe :
        (peers : List Peer) (query : List String) (selected : List Peer) (p : Peer)
        → select_peers_for_query lib texts self_id peers query ≡ some selected
        → In p selected
        → In p peers
          × (p.l2_id == self_id ≡ false)
          × ((url : String) × (given p.endpoint_url ≡ some url)
              × (endpoint_is_safe texts url ≡ some true))
    unfolding select_peers_for_query
    select_peers_for_query-safe peers query selected p e i =
        let (m, s) = select_loop-only (given_domains query) peers selected p e i in
        let (f, k) = is_selected-safe (given_domains query) p s in (m, f, k)
