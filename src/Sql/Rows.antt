-- ===== src/Sql/Rows.antt =====
-- How the statements act on the rows of a table.
use mathlib.Core.Option
use th_layer_agent.Common.{
  sym, ◌≡◌, refl, Bool, true, List, [], ◌∷◌, ◌++◌, none, some, arith, if◌then◌else◌, All, In,
  All-In, inl, inr, Bool-cases, length, suc, ap, subst, ◌∙◌, ◌⊎◌, false,
}
use th_layer_agent.Sql.{select, fetchone, rowcount, update, delete, order_by, insert_ordered}

module _ {A : Type 0} (p q : A → Bool) where
  pub update_none : (f : A → A) (rows : List A) → rowcount p rows ≡ 0 → update p f rows ≡ rows
  unfolding rowcount update
  update_none f [] h = refl
  update_none f (r ∷ rows) h = ground (arith, update_none f rows)

  -- A read by a test that the update does not change finds the same row, updated.
  pub fetchone-update :
      (f : A → A) (rows : List A)
      → ((r : A) → q (f r) ≡ q r)
      → fetchone q (update p f rows) ≡ Option.map (λ r. if p r then f r else r) (fetchone q rows)
  unfolding fetchone update
  fetchone-update f [] keep = refl
  fetchone-update f (r ∷ rows) keep = ground (arith, keep r, fetchone-update f rows keep)

module _ {A : Type 0} (p : A → Bool) where
  pub fetchone-holds : (rows : List A) {r : A} → fetchone p rows ≡ some r → p r ≡ true
  unfolding fetchone
  fetchone-holds [] h = ground arith
  fetchone-holds (x ∷ rows) {r} h = ground (arith, fetchone-holds rows {r = r})

  pub fetchone-In : (rows : List A) {r : A} → fetchone p rows ≡ some r → In r rows
  unfolding fetchone
  fetchone-In [] h = ground arith
  fetchone-In (x ∷ rows) {r} h = elim (Bool-cases (p x)) [
    | inl yes_p ↦ inl (ground arith)
    | inr no_p ↦ inr (fetchone-In rows (ground arith))
  ]

  pub fetchone-All :
      (P : A → Type 0) (rows : List A) {r : A} → All P rows → fetchone p rows ≡ some r → P r
  fetchone-All P rows a h = All-In P rows a (fetchone-In rows h)

  pub fetchone-append_none :
      (rows more : List A) → fetchone p rows ≡ none → fetchone p (rows ++ more) ≡ fetchone p more
  unfolding fetchone
  fetchone-append_none [] more h = refl
  fetchone-append_none (x ∷ rows) more h = ground (arith, fetchone-append_none rows more)

  pub fetchone-append_some :
      (rows more : List A) {r : A} → fetchone p rows ≡ some r → fetchone p (rows ++ more) ≡ some r
  unfolding fetchone
  fetchone-append_some [] more h = ground arith
  fetchone-append_some (x ∷ rows) more {r} h =
      ground (arith, fetchone-append_some rows more {r = r})

  pub fetchone-delete_self : (rows : List A) → fetchone p (delete p rows) ≡ none
  unfolding fetchone delete
  fetchone-delete_self [] = refl
  fetchone-delete_self (x ∷ rows) = ground (arith, fetchone-delete_self rows)

  pub rowcount-zero-fetchone : (rows : List A) → rowcount p rows ≡ 0 → fetchone p rows ≡ none
  unfolding fetchone rowcount
  rowcount-zero-fetchone [] h = refl
  rowcount-zero-fetchone (x ∷ rows) h = ground (arith, rowcount-zero-fetchone rows)

  pub fetchone-none-rowcount : (rows : List A) → fetchone p rows ≡ none → rowcount p rows ≡ 0
  unfolding fetchone rowcount
  fetchone-none-rowcount [] h = refl
  fetchone-none-rowcount (x ∷ rows) h = ground (arith, fetchone-none-rowcount rows)

  pub All-update :
      (P : A → Type 0) (f : A → A) (rows : List A)
      → ((r : A) → P r → p r ≡ true → P (f r))
      → All P rows
      → All P (update p f rows)
  unfolding update
  All-update P f [] keep a = tt
  All-update P f (r ∷ rows) keep a = elim (Bool-cases (p r)) [
    | inl yes_p ↦ (rw yes_p (keep r a.0 yes_p), All-update P f rows keep a.1)
    | inr no_p ↦ (rw no_p a.0, All-update P f rows keep a.1)
  ]

  pub All-delete : (P : A → Type 0) (rows : List A) → All P rows → All P (delete p rows)
  unfolding delete
  All-delete P [] a = tt
  All-delete P (r ∷ rows) a = elim (Bool-cases (p r)) [
    | inl yes_p ↦ rw yes_p (All-delete P rows a.1)
    | inr no_p ↦ rw no_p (a.0, All-delete P rows a.1)
  ]

  pub All-select : (P : A → Type 0) (rows : List A) → All P rows → All P (select p rows)
  unfolding select
  All-select P [] a = tt
  All-select P (r ∷ rows) a = elim (Bool-cases (p r)) [
    | inl yes_p ↦ rw yes_p (a.0, All-select P rows a.1)
    | inr no_p ↦ rw no_p (All-select P rows a.1)
  ]

  pub select-append :
      (rows more : List A) → select p (rows ++ more) ≡ select p rows ++ select p more
  unfolding select
  select-append [] more = refl
  select-append (r ∷ rows) more = ground (arith, select-append rows more)

  pub select-snoc :
      (rows : List A) (r : A)
      → select p (rows ++ r ∷ []) ≡ (if p r then select p rows ++ r ∷ [] else select p rows)
  unfolding select
  select-snoc [] r = ground arith
  select-snoc (x ∷ rows) r = ground (arith, select-snoc rows r)

module _ {A : Type 0} (p q : A → Bool) where
  pub fetchone-none-weaken :
      (rows : List A)
      → ((r : A) → q r ≡ true → p r ≡ true)
      → fetchone p rows ≡ none
      → fetchone q rows ≡ none
  unfolding fetchone
  fetchone-none-weaken [] i h = refl
  fetchone-none-weaken (x ∷ rows) i h = ground (arith, i x, fetchone-none-weaken rows i)

module _ {A : Type 0} (p : A → Bool) where
  pub rowcount-In : (rows : List A) {r : A} → In r rows → p r ≡ true → (rowcount p rows ≡ 0) → ⊥
  unfolding rowcount
  rowcount-In [] i h k = absurd i
  rowcount-In (x ∷ rows) (inl e) h k = ground (arith, e, h, k)
  rowcount-In (x ∷ rows) {r} (inr i) h k = rowcount-In rows {r = r} i h (ground (arith, k))

  pub rowcount-cases :
      (rows : List A) → (rowcount p rows ≡ 0) ⊎ ((r : A) × In r rows × (p r ≡ true))
  unfolding rowcount
  rowcount-cases [] = inl refl
  rowcount-cases (x ∷ rows) = elim (Bool-cases (p x)) [
    | inl yes_p ↦ inr (x, inl refl, yes_p)
    | inr no_p ↦ elim (rowcount-cases rows) [
      | inl zero_rows ↦ inl (ground (arith, no_p, zero_rows))
      | inr (r, i, yes_p) ↦ inr (r, inr i, yes_p)
    ]
  ]

  pub rowcount-update_self :
      (f : A → A) (rows : List A)
      → ((r : A) → p r ≡ true → p (f r) ≡ false)
      → rowcount p (update p f rows) ≡ 0
  unfolding rowcount update
  rowcount-update_self f [] off = refl
  rowcount-update_self f (r ∷ rows) off = ground (arith, off r, rowcount-update_self f rows off)

  pub In-update_other :
      (f : A → A) (rows : List A) {r : A} → In r rows → p r ≡ false → In r (update p f rows)
  unfolding update
  In-update_other f [] i n = absurd i
  In-update_other f (x ∷ rows) {r} (inl e) n = inl (ground (arith, e, n))
  In-update_other f (x ∷ rows) {r} (inr i) n = inr (In-update_other f rows {r = r} i n)

  -- an update of rows that a test does not select, before or after, is not seen through the test
  pub select-update_other :
      (q : A → Bool) (f : A → A) (rows : List A)
      → All (λ r. p r ≡ true → (q r ≡ false) × (q (f r) ≡ false)) rows
      → select q (update p f rows) ≡ select q rows
  unfolding select update
  select-update_other q f [] a = refl
  select-update_other q f (r ∷ rows) a = elim (Bool-cases (p r)) [
    | inl yes_p ↦
        let off = a.0 yes_p in ground (arith, yes_p, off.0, off.1, select-update_other q f rows a.1)
    | inr no_p ↦ ground (arith, no_p, select-update_other q f rows a.1)
  ]

  pub length-select : (rows : List A) → length (select p rows) ≡ rowcount p rows
  unfolding select rowcount
  length-select [] = refl
  length-select (r ∷ rows) = ground (arith, length-select rows)

  pub In-select : (rows : List A) {r : A} → In r (select p rows) → In r rows × (p r ≡ true)
  unfolding select
  In-select [] i = absurd i
  In-select (x ∷ rows) {r} i = elim (Bool-cases (p x)) [
    | inr no_p ↦
        let found =
          In-select rows {r = r}
            (subst (λ b. In r (if b then x ∷ select p rows else select p rows)) no_p i) in
        (inr found.0, found.1)
    | inl yes_p ↦
        elim (subst (λ b. In r (if b then x ∷ select p rows else select p rows)) yes_p i) [
          | inl e ↦ (inl e, ground (arith, e, yes_p))
          | inr j ↦ let found = In-select rows {r = r} j in (inr found.0, found.1)
        ]
  ]

module _ {A : Type 0} (p : A → Bool) where
  pub In-select_of : (rows : List A) {r : A} → In r rows → p r ≡ true → In r (select p rows)
  unfolding select
  In-select_of [] i h = absurd i
  In-select_of (x ∷ rows) {r} (inl e) h =
      subst (λ b. In r (if b then x ∷ select p rows else select p rows)) (sym (ap p e ∙ h)) (inl e)
  In-select_of (x ∷ rows) {r} (inr i) h = elim (Bool-cases (p x)) [
    | inl yes_p ↦ rw yes_p (inr (In-select_of rows {r = r} i h))
    | inr no_p ↦ rw no_p (In-select_of rows {r = r} i h)
  ]

module _ {A : Type 0} (before : A → A → Bool) where
  length-insert_ordered :
      (a : A) (rows : List A) → length (insert_ordered before a rows) ≡ suc (length rows)
  unfolding insert_ordered
  length-insert_ordered a [] = refl
  length-insert_ordered a (r ∷ rows) = ground (arith, length-insert_ordered a rows)

  pub length-order_by : (rows : List A) → length (order_by before rows) ≡ length rows
  unfolding order_by
  length-order_by [] = refl
  length-order_by (r ∷ rows) =
      length-insert_ordered r (order_by before rows) ∙ ap suc (length-order_by rows)
