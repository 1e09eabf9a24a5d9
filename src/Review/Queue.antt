-- ===== src/Review/Queue.antt =====
-- The pending-review queue: its page, its total and the sweep that runs after it.
use th_layer_agent.Common.{
  ℕ, String, true, false, Option, List, [], ◌∷◌, ◌==◌, if◌then◌else◌, ◌≡◌, refl, sym, ap, subst,
  ◌∙◌, inl, inr, arith, Bool-cases, Option-cases, In, All-of_In, some_inj, str_eq→eq, map, length,
  take, drop, length-take, length-drop, ◌-◌,
}
use Prim.Native.Nat.{min}
use th_layer_agent.Common.Texts.{text_lt-asym}
use th_layer_agent.Sql.{select, fetchone, order_by}
use th_layer_agent.Sql.Rows.{
  select-update_other, length-select, In-select, length-order_by, In-update_other,
}
use th_layer_agent.Sql.Keys.{by_key, IsKeyed}
use th_layer_agent.Review.{
  KnowledgeUnit, Tables, is_terminal, decided_row, visible, sooner, list_pending_review,
  count_pending_review, overdue, id_in, expire_pending_reviews,
}

id_in-map :
    (xs : List KnowledgeUnit) (r : KnowledgeUnit)
    → id_in (map (λ x. x.id) xs) r ≡ true
    → (x : KnowledgeUnit) × In x xs × (r.id ≡ x.id)
unfolding id_in
id_in-map [] r h = absurd (ground (arith, h))
id_in-map (x ∷ xs) r h = elim (Bool-cases (r.id == x.id)) [
  | inl same ↦ (x, inl refl, str_eq→eq _ _ same)
  | inr other ↦
      let found = id_in-map xs r (ground (arith, other, h)) in (found.0, inr found.1, found.2)
]

overdue-visible :
    (ent ent' : String) (grp : Option String) (now : String) (r : KnowledgeUnit)
    → overdue ent now r ≡ true
    → visible ent' grp now r ≡ false
unfolding overdue visible
overdue-visible ent ent' grp now r h = elim (Option-cases r.pending_review_expires_at) [
  | inl never ↦ absurd (ground (arith, never, h))
  | inr (t, expires) ↦ ground (arith, expires, h, text_lt-asym t now)
]

overdue-terminal :
    (ent now : String) (r : KnowledgeUnit)
    → overdue ent now r ≡ true
    → is_terminal r.status ≡ true
    → ⊥
unfolding overdue is_terminal
overdue-terminal ent now r o t =
    let pending : r.status ≡ "pending_review" = str_eq→eq _ _ (ground (arith, o)) in
    let decided : is_terminal "pending_review" ≡ true =
      subst (λ s. is_terminal s ≡ true) pending t in
    subst (λ b. if b then ⊥ else Unit {0}) decided tt

module _ (ent now at : String) (db : Tables) (k : IsKeyed (λ r. r.id) db.units) where
  -- the rows that the sweep writes are those that it selected
  swept-overdue :
      (r : KnowledgeUnit)
      → In r db.units
      → id_in (map (λ x. x.id) (select (overdue ent now) db.units)) r ≡ true
      → overdue ent now r ≡ true
  unfolding IsKeyed
  swept-overdue r i h =
      let found = id_in-map (select (overdue ent now) db.units) r h in
      let x = found.0 in
      let due = In-select (overdue ent now) db.units {r = x} found.1 in
      let same : r ≡ x =
        some_inj
          (sym (k r i) ∙ ap (λ j. fetchone (by_key (λ u. u.id) j) db.units) found.2 ∙ k x due.0) in
      subst (λ u. overdue ent now u ≡ true) (sym same) due.1

  dropped-visible :
      (ent' : String) (grp : Option String) (r : KnowledgeUnit)
      → visible ent' grp now (decided_row "dropped" "ttl_expired_sweeper" at r) ≡ false
  unfolding visible
  dropped-visible ent' grp r = refl

  visible-sweep :
      (ent' : String) (grp : Option String)
      → select (visible ent' grp now) (expire_pending_reviews ent now at db).1.units
        ≡ select (visible ent' grp now) db.units
  unfolding expire_pending_reviews
  visible-sweep ent' grp =
      select-update_other (id_in (map (λ x. x.id) (select (overdue ent now) db.units)))
        (visible ent' grp now) (decided_row "dropped" "ttl_expired_sweeper" at) db.units
        (All-of_In _ db.units (λ r i h.
          (overdue-visible ent ent' grp now r (swept-overdue r i h), dropped-visible ent' grp r)))

  -- The sweep drops only units that no page of the queue shows: at the same time, the pages and the
  -- totals of every tenant are the same before and after it.
  pub list_pending_review-sweep :
      (ent' : String) (grp : Option String) (limit offset : ℕ)
      → (list_pending_review ent' grp limit offset now (expire_pending_reviews ent now at db).1
          ≡ list_pending_review ent' grp limit offset now db)
        × (count_pending_review ent' grp now (expire_pending_reviews ent now at db).1
            ≡ count_pending_review ent' grp now db)
  unfolding list_pending_review count_pending_review
  list_pending_review-sweep ent' grp limit offset = (
    ap (λ rows. take limit (drop offset (order_by sooner rows))) (visible-sweep ent' grp),
    sym (length-select (visible ent' grp now) _)
        ∙ ap length (visible-sweep ent' grp)
        ∙ length-select (visible ent' grp now) db.units,
  )

  -- The sweep leaves every unit that is decided already as it is.
  pub expire_pending_reviews-decided :
      (r : KnowledgeUnit)
      → In r db.units
      → is_terminal r.status ≡ true
      → In r (expire_pending_reviews ent now at db).1.units
  unfolding expire_pending_reviews overdue is_terminal
  expire_pending_reviews-decided r i terminal =
      In-update_other (id_in (map (λ x. x.id) (select (overdue ent now) db.units)))
        (decided_row "dropped" "ttl_expired_sweeper" at) db.units i
        (elim (Bool-cases (id_in (map (λ x. x.id) (select (overdue ent now) db.units)) r)) [
          | inr kept ↦ kept
          | inl swept ↦ absurd (overdue-terminal ent now r (swept-overdue r i swept) terminal)
        ])

-- A page has as many units as are left of the total after the offset, up to the limit.
pub list_pending_review-count :
    (ent : String) (grp : Option String) (limit offset : ℕ) (now : String) (db : Tables)
    → length (list_pending_review ent grp limit offset now db)
      ≡ min limit (count_pending_review ent grp now db - offset)
unfolding list_pending_review count_pending_review
list_pending_review-count ent grp limit offset now db =
    length-take limit _
    ∙ ap (min limit) (length-drop offset _)
    ∙ ap (λ n. min limit (n - offset))
        (length-order_by sooner _ ∙ length-select (visible ent grp now) db.units)
