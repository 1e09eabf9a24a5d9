-- ===== src/Mail/Swept.antt =====
-- The dictionary of answers when entries of a key, or stale ones, are dropped.
use th_layer_agent.Common.{
  ℕ, String, Bool, true, false, ◌≡◌, refl, sym, ◌∙◌, subst, none, some, List, [], ◌∷◌, ◌==◌,
  Bool-cases, arith, str_eq→eq, str_eq-sym, str_eq_refl, inl, inr,
}
use th_layer_agent.Sql.{fetchone, delete}
use th_layer_agent.Sql.Rows.{fetchone-holds, fetchone-In}
use th_layer_agent.Sql.Keys.{by_key, IsKeyed, In-delete, fetchone-delete, delete-IsKeyed}
use th_layer_agent.Mail.Idempotency.{Kept, is_stale}

module _ {A : Type 0} where
  abbrev pub has : String → Kept A → Bool
  has = by_key (λ x. x.key)

  pub fetchone-delete_other :
      (k key : String) (entries : List (Kept A))
      → k == key ≡ false
      → fetchone (has k) (delete (has key) entries) ≡ fetchone (has k) entries
  unfolding fetchone delete
  fetchone-delete_other k key [] n = refl
  fetchone-delete_other k key (e ∷ entries) n = elim (Bool-cases (e.key == k)) [
    | inl t ↦
        let other : e.key == key ≡ false =
          subst (λ x. x == key ≡ false) (sym (str_eq→eq e.key k t)) n in
        ground (arith, fetchone-delete_other k key entries n)
    | inr f ↦ ground (arith, fetchone-delete_other k key entries n)
  ]

  pub cons-IsKeyed :
      (e : Kept A) (entries : List (Kept A))
      → IsKeyed (λ x. x.key) entries
      → IsKeyed (λ x. x.key) (e ∷ delete (has e.key) entries)
  unfolding IsKeyed fetchone
  cons-IsKeyed e entries keyed r (inl same) =
      subst (λ x. fetchone (has x.key) (e ∷ delete (has e.key) entries) ≡ some x) same
        (ground (arith, str_eq_refl e.key))
  cons-IsKeyed e entries keyed r (inr i) =
      let there = In-delete (has e.key) entries {r = r} i in
      let found = delete-IsKeyed (λ x. x.key) (has e.key) entries keyed r i in
      ground (arith, str_eq-sym e.key r.key)

  -- what is found among the entries that are not stale
  pub sweep-sub :
      (ttl now : ℕ) (k : String) (entries : List (Kept A)) (r : Kept A)
      → IsKeyed (λ x. x.key) entries
      → fetchone (has k) (delete (is_stale ttl now) entries) ≡ some r
      → (fetchone (has k) entries ≡ some r) × (is_stale ttl now r ≡ false)
  unfolding IsKeyed
  sweep-sub ttl now k entries r keyed found =
      let there =
        In-delete (is_stale ttl now) entries {r = r}
          (fetchone-In (has k) (delete (is_stale ttl now) entries) found) in
      let key : r.key ≡ k =
        str_eq→eq r.key k (fetchone-holds (has k) (delete (is_stale ttl now) entries) found) in
      (subst (λ x. fetchone (has x) entries ≡ some r) key (keyed r there.0), there.1)

  pub sweep-stale :
      (ttl now : ℕ) (k : String) (entries : List (Kept A)) (e : Kept A)
      → fetchone (has k) entries ≡ some e
      → fetchone (has k) (delete (is_stale ttl now) entries) ≡ none
      → is_stale ttl now e ≡ true
  sweep-stale ttl now k entries e h n = elim (Bool-cases (is_stale ttl now e)) [
    | inl t ↦ t
    | inr f ↦
        let clash : some e ≡ none =
          sym (fetchone-delete (is_stale ttl now) (has k) entries h f) ∙ n in
        absurd cc
  ]
