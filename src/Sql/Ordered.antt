-- ===== src/Sql/Ordered.antt =====
-- A table whose rows are in the order that an ORDER BY asks for.
use th_layer_agent.Common.{Bool, true, ◌≡◌, refl, ap, ◌∙◌, List, [], ◌∷◌, ◌++◌, All}
use th_layer_agent.Sql.{insert_ordered, order_by}

module _ {A : Type 0} (before : A → A → Bool) where
  -- Each row sorts no later than those behind it.
  abbrev pub Ascending : List A → Type 0
  Ascending [] = Unit
  Ascending (r ∷ rows) = All (λ x. before r x ≡ true) rows × Ascending rows

  insert_ordered-front :
      (r : A) (rows : List A)
      → All (λ x. before r x ≡ true) rows
      → insert_ordered before r rows ≡ r ∷ rows
  unfolding insert_ordered
  insert_ordered-front r [] a = refl
  insert_ordered-front r (x ∷ rows) a = rw a.0 refl

  pub order_by-Ascending : (rows : List A) → Ascending rows → order_by before rows ≡ rows
  unfolding order_by
  order_by-Ascending [] a = refl
  order_by-Ascending (r ∷ rows) a =
      ap (insert_ordered before r) (order_by-Ascending rows a.1) ∙ insert_ordered-front r rows a.0

  All-snoc :
      (r x : A) (rows : List A)
      → All (λ y. before r y ≡ true) rows
      → before r x ≡ true
      → All (λ y. before r y ≡ true) (rows ++ x ∷ [])
  All-snoc r x [] a h = (h, tt)
  All-snoc r x (y ∷ rows) a h = (a.0, All-snoc r x rows a.1 h)

  pub Ascending-snoc :
      (rows : List A) (x : A)
      → Ascending rows
      → All (λ r. before r x ≡ true) rows
      → Ascending (rows ++ x ∷ [])
  Ascending-snoc [] x a h = (tt, tt)
  Ascending-snoc (r ∷ rows) x a h = (All-snoc r x rows a.0 h.0, Ascending-snoc rows x a.1 h.1)
