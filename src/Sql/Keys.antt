-- ===== src/Sql/Keys.antt =====
-- Tables with a primary key: no two rows share it, so that a statement by key is about one row.
use th_layer_agent.Common.{
  ◌≡◌, refl, sym, Bool, true, false, String, List, [], ◌∷◌, none, some, arith, if◌then◌else◌, All,
  In, All-In, All-of_In, inl, inr, ◌⊎◌, Bool-cases, ◌==◌, some_inj, In-append, ap, subst, ◌∙◌,
  str_eq_refl,
}
use th_layer_agent.Sql.{fetchone, update, delete, insert}
use th_layer_agent.Sql.Rows.{fetchone-update, fetchone-append_none, fetchone-append_some}

module _ {A : Type 0} (p : A → Bool) where
  -- a row after an update is an updated row, or one that the update did not select
  pub In-update :
      (f : A → A) (rows : List A) {r' : A}
      → In r' (update p f rows)
      → (r : A) × In r rows × ((p r ≡ true) × (r' ≡ f r) ⊎ (p r ≡ false) × (r' ≡ r))
  unfolding update
  In-update f [] i = absurd i
  In-update f (x ∷ rows) {r'} (inl e) = elim (Bool-cases (p x)) [
    | inl yes_p ↦ (x, inl refl, inl (yes_p, ground arith))
    | inr no_p ↦ (x, inl refl, inr (no_p, ground arith))
  ]
  In-update f (x ∷ rows) (inr i) = let found = In-update f rows i in (found.0, inr found.1, found.2)

  pub In-delete : (rows : List A) {r : A} → In r (delete p rows) → In r rows × (p r ≡ false)
  unfolding delete
  In-delete [] i = absurd i
  In-delete (x ∷ rows) {r} i = elim (Bool-cases (p x)) [
    | inl yes_p ↦
        let found =
          In-delete rows {r = r}
            (subst (λ b. In r (if b then delete p rows else x ∷ delete p rows)) yes_p i) in
        (inr found.0, found.1)
    | inr no_p ↦ elim (subst (λ b. In r (if b then delete p rows else x ∷ delete p rows)) no_p i) [
      | inl e ↦ (inl e, ground arith)
      | inr j ↦ let found = In-delete rows {r = r} j in (inr found.0, found.1)
    ]
  ]

  -- deleting other rows does not hide the first match
  pub fetchone-delete :
      (q : A → Bool) (rows : List A) {r : A}
      → fetchone q rows ≡ some r
      → p r ≡ false
      → fetchone q (delete p rows) ≡ some r
  unfolding fetchone delete
  fetchone-delete q [] h n = ground arith
  fetchone-delete q (x ∷ rows) {r} h n = elim (Bool-cases (q x)) [
    | inl yes_q ↦ ground arith
    | inr no_q ↦ ground (arith, fetchone-delete q rows {r = r})
  ]

module _ {A : Type 0} (key : A → String) where
  abbrev pub by_key : String → A → Bool
  by_key k r = key r == k

  unfoldable pub IsKeyed : List A → Type 0
  IsKeyed rows = (r : A) → In r rows → fetchone (by_key (key r)) rows ≡ some r

  pub insert-IsKeyed :
      (rows : List A) (e : A)
      → fetchone (by_key (key e)) rows ≡ none
      → IsKeyed rows
      → IsKeyed (insert e rows)
  unfolding IsKeyed
  insert-IsKeyed rows e absent k r i = elim (In-append r rows (e ∷ []) i) [
    | inl old ↦ fetchone-append_some (by_key (key r)) rows (e ∷ []) (k r old)
    | inr (inl e=r) ↦
        subst (λ x. fetchone (by_key (key x)) (insert e rows) ≡ some x) e=r
          (fetchone-append_none (by_key (key e)) rows (e ∷ []) absent
            ∙ unfold fetchone in ground (arith, str_eq_refl (key e)))
    | inr (inr n) ↦ absurd n
  ]

  pub update-IsKeyed :
      (p : A → Bool) (f : A → A) (rows : List A)
      → ((r : A) → key (f r) ≡ key r)
      → IsKeyed rows
      → IsKeyed (update p f rows)
  unfolding IsKeyed
  update-IsKeyed p f rows same k r' i =
      let found = In-update p f rows {r' = r'} i in
      let r = found.0 in
      let row = k r found.1 in
      let moved = fetchone-update p (by_key (key r)) f rows (λ x. ap (λ y. y == key r) (same x)) in
      elim found.2 [
        | inl (yes_p, e) ↦ rw (e, same r, moved, row) (rw yes_p refl)
        | inr (no_p, e) ↦ rw (e, moved, row) (rw no_p refl)
      ]

  pub delete-IsKeyed : (p : A → Bool) (rows : List A) → IsKeyed rows → IsKeyed (delete p rows)
  unfolding IsKeyed
  delete-IsKeyed p rows k r i =
      let found = In-delete p rows {r = r} i in
      fetchone-delete p (by_key (key r)) rows {r = r} (k r found.0) found.1

  -- An update of the row with a given key, where the other rows keep what they have.
  pub All-update_key :
      (P : A → Type 0) (p : A → Bool) (f : A → A) (rows : List A) {row : A}
      → IsKeyed rows
      → fetchone (by_key (key row)) rows ≡ some row
      → ((r : A) → p r ≡ true → key r ≡ key row)
      → (P row → P (f row))
      → All P rows
      → All P (update p f rows)
  unfolding IsKeyed
  All-update_key P p f rows {row} k here keyed keep a = All-of_In P (update p f rows) (λ r' i.
      let found = In-update p f rows {r' = r'} i in
      let r = found.0 in
      let old = All-In P rows a found.1 in
      elim found.2 [
        | inl (yes_p, e) ↦
            let same : r ≡ row =
              some_inj
                (sym (k r found.1) ∙ ap (λ x. fetchone (by_key x) rows) (keyed r yes_p) ∙ here) in
            subst P (sym e) (subst (λ x. P (f x)) (sym same) (keep (subst P same old)))
        | inr (no_p, e) ↦ subst P (sym e) old
      ])
