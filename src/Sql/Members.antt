-- ===== src/Sql/Members.antt =====
-- Membership in a sorted table and in a part of one.
use th_layer_agent.Common.{
  ℕ, zero, suc, Bool, ◌≡◌, subst, List, [], ◌∷◌, In, inl, inr, ◌⊎◌, Bool-cases, if◌then◌else◌, take,
}
use th_layer_agent.Sql.{insert_ordered, order_by}

pub In-take : {A : Type 0} (n : ℕ) (xs : List A) (x : A) → In x (take n xs) → In x xs
In-take zero xs x i = absurd i
In-take (suc n) [] x i = i
In-take (suc n) (y ∷ xs) x (inl e) = inl e
In-take (suc n) (y ∷ xs) x (inr i) = inr (In-take n xs x i)

module _ {A : Type 0} (before : A → A → Bool) where
  In-insert_ordered :
      (a : A) (rows : List A) (x : A) → In x (insert_ordered before a rows) → (a ≡ x) ⊎ In x rows
  unfolding insert_ordered
  In-insert_ordered a [] x (inl e) = inl e
  In-insert_ordered a [] x (inr i) = absurd i
  In-insert_ordered a (r ∷ rows) x i = elim (Bool-cases (before a r)) [
    | inl t ↦ subst (λ b. In x (if b then a ∷ r ∷ rows else r ∷ insert_ordered before a rows)) t i
    | inr f ↦
        elim (subst (λ b. In x (if b then a ∷ r ∷ rows else r ∷ insert_ordered before a rows)) f
          i) [
            | inl e ↦ inr (inl e)
            | inr j ↦ elim (In-insert_ordered a rows x j) [ inl e ↦ inl e | inr k ↦ inr (inr k) ]
          ]
  ]

  pub In-order_by : (rows : List A) (x : A) → In x (order_by before rows) → In x rows
  unfolding order_by
  In-order_by [] x i = i
  In-order_by (r ∷ rows) x i = elim (In-insert_ordered r (order_by before rows) x i) [
    | inl e ↦ inl e
    | inr j ↦ inr (In-order_by rows x j)
  ]
