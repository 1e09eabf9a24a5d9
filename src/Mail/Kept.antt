-- ===== src/Mail/Kept.antt =====
-- The cache of answers: an answer stays, whatever is asked and kept under other keys, until its time
-- to live has passed.
use th_layer_agent.Common.{
  ℕ, ◌+◌, ltb, String, false, ◌≡◌, sym, subst, some, List, ◌==◌, Option-cases, arith, str_eq→eq,
  inl, inr, str_eq-sym, str_eq_refl,
}
use th_layer_agent.Sql.{fetchone}
use th_layer_agent.Sql.Rows.{fetchone-holds}
use th_layer_agent.Sql.Keys.{by_key, fetchone-delete}
use th_layer_agent.Mail.Idempotency.{Kept, get_answer, put_answer}

module _ {A : Type 0} where
  -- the entry that a key finds
  unfoldable pub Holds : String → Kept A → List (Kept A) → Type 0
  Holds k e entries = fetchone (by_key (λ x. x.key) k) entries ≡ some e

  -- the key of what is found differs from another key
  by_key-other :
      (k other : String) (e : Kept A) (entries : List (Kept A))
      → Holds k e entries
      → k == other ≡ false
      → by_key (λ x. x.key) other e ≡ false
  unfolding Holds
  by_key-other k other e entries h n =
      subst (λ x. x == other ≡ false)
        (sym (str_eq→eq e.key k (fetchone-holds (by_key (λ x. x.key) k) entries h))) n

  pub Holds-put :
      (k other : String) (e : Kept A) (answer : A) (now : ℕ) (entries : List (Kept A))
      → Holds k e entries
      → k == other ≡ false
      → Holds k e (put_answer other answer now entries)
  unfolding Holds put_answer fetchone
  Holds-put k other e answer now entries h n =
      let kept =
        fetchone-delete (by_key (λ x. x.key) other) (by_key (λ x. x.key) k) entries h
          (by_key-other k other e entries h n) in
      ground (arith, str_eq-sym k other)

  pub Holds-put_self :
      (k : String) (answer : A) (now : ℕ) (entries : List (Kept A))
      → k == "" ≡ false
      → Holds k (record { key = k; at = now; answer = answer }) (put_answer k answer now entries)
  unfolding Holds put_answer fetchone
  Holds-put_self k answer now entries n = ground (arith, str_eq_refl k)

  module _ (ttl : ℕ) where
    pub Holds-get :
        (k other : String) (e : Kept A) (now : ℕ) (entries : List (Kept A))
        → Holds k e entries
        → k == other ≡ false
        → Holds k e ((get_answer ttl other now entries).1)
    unfolding Holds get_answer
    Holds-get k other e now entries h n =
        let kept =
          fetchone-delete (by_key (λ x. x.key) other) (by_key (λ x. x.key) k) entries h
            (by_key-other k other e entries h n) in
        elim (Option-cases (fetchone (by_key (λ x. x.key) other) entries)) [
          | inl absent ↦ ground arith
          | inr (found, here) ↦ ground arith
        ]

    pub get-Holds :
        (k : String) (e : Kept A) (now : ℕ) (entries : List (Kept A))
        → Holds k e entries
        → k == "" ≡ false
        → ltb (e.at + ttl) now ≡ false
        → get_answer ttl k now entries ≡ (some e.answer, entries)
    unfolding Holds get_answer
    get-Holds k e now entries h n fresh = ground arith
