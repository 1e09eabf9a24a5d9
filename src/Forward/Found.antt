-- ===== src/Forward/Found.antt =====
-- What the search finds: units of the table that are approved.
use th_layer_agent.Common.{
  ℕ, String, true, ◌≡◌, refl, sym, ◌∙◌, subst, none, some, List, [], ◌∷◌, In, inl, inr, Bool-cases,
  Option-cases, arith, some_inj, str_eq→eq, take, nat_eq, length,
}
use th_layer_agent.Sql.{select, order_by}
use th_layer_agent.Sql.Rows.{In-select}
use th_layer_agent.Sql.Members.{In-take, In-order_by}
use th_layer_agent.Forward.Search.{
  Vectors, Row, Hit, hit_of, score_row, score_rows, is_candidate, semantic_query_with_scope,
}

module _ (v : Vectors) where
  score_row-hit :
      (query : v.Vec) (r : Row v) (hit : Hit v)
      → score_row v query r ≡ some (some hit)
      → (sim : v.Sim) × (hit ≡ hit_of v r sim)
  unfolding score_row
  score_row-hit query r hit e = elim (Option-cases r.embedding) [
    | inl n ↦ absurd (ground arith)
    | inr (vec, m) ↦ elim (Bool-cases (v.is_empty vec)) [
      | inl t ↦ absurd (ground arith)
      | inr f ↦ elim (Bool-cases (v.is_zero vec)) [
        | inl t ↦ absurd (ground arith)
        | inr g ↦ elim (Option-cases (v.cosine query vec)) [
          | inl n ↦ absurd (ground arith)
          | inr (sim, c) ↦ (sim, some_inj (some_inj (ground arith)))
        ]
      ]
    ]
  ]

  -- a hit is a row with a cosine
  score_rows-In :
      (query : v.Vec) (rows : List (Row v)) (hits : List (Hit v)) (h : Hit v)
      → score_rows v query rows ≡ some hits
      → In h hits
      → (r : Row v) × In r rows × ((sim : v.Sim) × (h ≡ hit_of v r sim))
  unfolding score_rows
  score_rows-In query [] hits h e i = absurd (subst (In h) (sym (some_inj e)) i)
  score_rows-In query (r ∷ rows) hits h e i = elim (Option-cases (score_row v query r)) [
    | inl n ↦ absurd (ground arith)
    | inr (none, m) ↦
        let found = score_rows-In query rows hits h (ground arith) i in
        (found.0, inr found.1, found.2)
    | inr (some hit, m) ↦ elim (Option-cases (score_rows v query rows)) [
      | inl n ↦ absurd (ground arith)
      | inr (more, rest) ↦
          let made : hit ∷ more ≡ hits = some_inj (ground arith) in
          elim (subst (In h) (sym made) i) [
            | inl same ↦
                let scored = score_row-hit query r hit m in
                (r, inl refl, (scored.0, sym same ∙ scored.1))
            | inr j ↦
                let found = score_rows-In query rows more h rest j in
                (found.0, inr found.1, found.2)
          ]
    ]
  ]

  candidate-status :
      (status : String) (r : Row v) → is_candidate v status r ≡ true → r.status ≡ status
  candidate-status status r h = elim (Option-cases r.embedding) [
    | inl n ↦ absurd (ground arith)
    | inr (vec, m) ↦ str_eq→eq r.status status (ground arith)
  ]

  pub semantic_query-In :
      (query : v.Vec) (limit : ℕ) (status : String) (units : List (Row v)) (hits : List (Hit v))
      (h : Hit v)
      → semantic_query_with_scope v query limit status units ≡ some hits
      → In h hits
      → (r : Row v) × In r units × (r.status ≡ status) × ((sim : v.Sim) × (h ≡ hit_of v r sim))
  unfolding semantic_query_with_scope
  semantic_query-In query limit status units hits h e i =
      elim (Bool-cases (nat_eq (length (select (is_candidate v status) units)) 0)) [
        | inl t ↦ absurd (subst (In h) (some_inj {a = hits} {b = []} (ground arith)) i)
        | inr f ↦ elim (Bool-cases (v.is_zero query)) [
          | inl z ↦ absurd (subst (In h) (some_inj {a = hits} {b = []} (ground arith)) i)
          | inr g ↦
              elim (Option-cases (score_rows v query (select (is_candidate v status) units))) [
                | inl n ↦ absurd (ground arith)
                | inr (scored, m) ↦
                    let sorted = order_by (λ a b. v.at_least a.similarity b.similarity) scored in
                    let made : hits ≡ take limit sorted = some_inj (ground arith) in
                    let j =
                      In-order_by (λ a b. v.at_least a.similarity b.similarity) scored h
                        (In-take limit sorted h (subst (In h) made i)) in
                    let row =
                      score_rows-In query (select (is_candidate v status) units) scored h m j in
                    let there = In-select (is_candidate v status) units {r = row.0} row.1 in
                    (row.0, there.0, candidate-status status row.0 there.1, row.2)
              ]
        ]
      ]
