-- ===== src/Review/Decisions.antt =====
-- store/_sqlite.py: the UPDATE that decides on a unit, and the one that comes too late.
use th_layer_agent.Common.{
  String, Bool, true, false, not, ◌&&◌, ◌||◌, Option, none, some, ◌==◌, is_none, nat_eq, ◌≢◌, ◌≡◌,
  refl, sym, ap, subst, ◌∙◌, ◌⊎◌, inl, inr, arith, Bool-cases, Option-cases, In, some_inj,
  str_eq→eq,
}
use th_layer_agent.Sql.{fetchone, rowcount, update}
use th_layer_agent.Sql.Rows.{
  fetchone-update, fetchone-holds, fetchone-In, fetchone-none-rowcount, rowcount-cases,
  rowcount-update_self, rowcount-In, In-update_other,
}
use th_layer_agent.Sql.Keys.{by_key, IsKeyed}
use th_layer_agent.Review.{
  KnowledgeUnit, Tables, in_scope, scoped, is_terminal, undecided, decided_row, get_review_status,
  set_review_status,
}

module _ (unit_id status reviewed_by : String) (ent grp : Option String) (at : String) where
  pub set_review_status-cases :
      (db : Tables)
      → (set_review_status unit_id status reviewed_by ent grp at db ≡ (none, db))
        ⊎ (set_review_status unit_id status reviewed_by ent grp at db ≡ (some false, db))
        ⊎ ((set_review_status unit_id status reviewed_by ent grp at db).0 ≡ some true)
  unfolding set_review_status
  set_review_status-cases db =
      elim (Bool-cases (nat_eq (rowcount (undecided unit_id ent grp) db.units) 0)) [
        | inr won ↦ inr (inr (ground (arith, won)))
        | inl nothing ↦ elim (Option-cases (fetchone (scoped unit_id ent grp) db.units)) [
          | inl absent ↦ inl (ground (arith, nothing, absent))
          | inr (row, found) ↦ inr (inl (ground (arith, nothing, found)))
        ]
      ]

  set_review_status-decided :
      (db : Tables)
      → rowcount (undecided unit_id ent grp) db.units ≡ 0
      → is_none (fetchone (scoped unit_id ent grp) db.units) ≡ false
      → set_review_status unit_id status reviewed_by ent grp at db ≡ (some false, db)
  unfolding set_review_status
  set_review_status-decided db nothing there = ground (arith, nothing, there)

module _ (unit_id status reviewed_by : String) (ent grp : Option String) (at : String) where
  kept_scope :
      (q : KnowledgeUnit → Bool) (r : KnowledgeUnit)
      → in_scope ent grp (decided_row status reviewed_by at r) ≡ in_scope ent grp r
  unfolding in_scope
  kept_scope q r = elim (Option-cases ent) [
    | inl no_ent ↦ rw no_ent refl
    | inr (e, has_ent) ↦ elim (Option-cases grp) [
      | inl no_grp ↦ rw (has_ent, no_grp) refl
      | inr (g, has_grp) ↦ rw (has_ent, has_grp) refl
    ]
  ]

  same_scoped :
      (r : KnowledgeUnit)
      → scoped unit_id ent grp (decided_row status reviewed_by at r) ≡ scoped unit_id ent grp r
  same_scoped r = ap (λ b. (r.id == unit_id) && b) (kept_scope (λ x. true) r)

  written :
      (db : Tables) (r : KnowledgeUnit)
      → In r db.units
      → undecided unit_id ent grp r ≡ true
      → (set_review_status unit_id status reviewed_by ent grp at db).1.units
        ≡ update (undecided unit_id ent grp) (decided_row status reviewed_by at) db.units
  unfolding set_review_status
  written db r i open_r = ground (arith, rowcount-In (undecided unit_id ent grp) db.units i open_r)

  moved :
      (db : Tables) (row : KnowledgeUnit)
      → fetchone (scoped unit_id ent grp) db.units ≡ some row
      → undecided unit_id ent grp row ≡ true
      → fetchone
          (scoped unit_id ent grp)
          (update (undecided unit_id ent grp) (decided_row status reviewed_by at) db.units)
        ≡ some (decided_row status reviewed_by at row)
  moved db row found open_row =
      fetchone-update (undecided unit_id ent grp) (scoped unit_id ent grp)
        (decided_row status reviewed_by at) db.units same_scoped
      ∙ ground (arith, found, open_row)

  not_won :
      (db : Tables)
      → rowcount (undecided unit_id ent grp) db.units ≡ 0
      → (set_review_status unit_id status reviewed_by ent grp at db).0 ≢ some true
  unfolding set_review_status
  not_won db nothing h = elim (Option-cases (fetchone (scoped unit_id ent grp) db.units)) [
    | inl absent ↦ ground (arith, nothing, absent, h)
    | inr (row, found) ↦ ground (arith, nothing, found, h)
  ]

  still_there :
      (db : Tables) (r : KnowledgeUnit)
      → In r db.units
      → undecided unit_id ent grp r ≡ true
      → is_none (
          fetchone
            (scoped unit_id ent grp)
            (update (undecided unit_id ent grp) (decided_row status reviewed_by at) db.units))
        ≡ false
  still_there db r i open_r = elim (Option-cases (fetchone (scoped unit_id ent grp) db.units)) [
    | inl absent ↦ absurd (
        rowcount-In (scoped unit_id ent grp) db.units i (ground (arith, open_r))
          (fetchone-none-rowcount (scoped unit_id ent grp) db.units absent))
    | inr (row, found) ↦
        rw
          (
            fetchone-update (undecided unit_id ent grp) (scoped unit_id ent grp)
                (decided_row status reviewed_by at) db.units same_scoped,
            found,
          )
          refl
  ]

  -- A decision that wins is made on the tenant's row of that id, which was undecided; reading the unit
  -- again gives the decision.
  pub set_review_status-wins :
      (db : Tables)
      → IsKeyed (λ r. r.id) db.units
      → (set_review_status unit_id status reviewed_by ent grp at db).0 ≡ some true
      → (row : KnowledgeUnit) × (get_review_status unit_id ent grp db ≡ some row)
        × (is_terminal row.status ≡ false)
        × (get_review_status unit_id ent grp
              (set_review_status unit_id status reviewed_by ent grp at db).1
            ≡ some (decided_row status reviewed_by at row))
  unfolding get_review_status set_review_status IsKeyed
  set_review_status-wins db k h = elim (rowcount-cases (undecided unit_id ent grp) db.units) [
    | inl nothing ↦ absurd (not_won db nothing h)
    | inr (r, i, open_r) ↦ elim (Option-cases (fetchone (scoped unit_id ent grp) db.units)) [
      | inl absent ↦ absurd (
          rowcount-In (scoped unit_id ent grp) db.units i (ground (arith, open_r))
            (fetchone-none-rowcount (scoped unit_id ent grp) db.units absent))
      | inr (row, found) ↦
          let row_id : row.id ≡ unit_id =
            str_eq→eq _ _
              (ground (arith, fetchone-holds (scoped unit_id ent grp) db.units found)) in
          let r_id : r.id ≡ unit_id = str_eq→eq _ _ (ground (arith, open_r)) in
          let one : r ≡ row = some_inj (
            sym (k r i)
            ∙ ap (λ x. fetchone (by_key (λ u. u.id) x) db.units) (r_id ∙ sym row_id)
            ∙ k row (fetchone-In (scoped unit_id ent grp) db.units found)) in
          let open_row : undecided unit_id ent grp row ≡ true =
            subst (λ x. undecided unit_id ent grp x ≡ true) one open_r in
          (
            row,
            found,
            ground (arith, open_row),
            ap (fetchone (scoped unit_id ent grp)) (written db r i open_r)
                ∙ moved db row found open_row,
          )
    ]
  ]

  -- Of two decisions on one unit in one tenant only the first is written: the second, of whatever
  -- administrator and status, finds the unit decided and changes nothing.
  pub set_review_status-first :
      (db : Tables) (status' reviewed_by' at' : String)
      → is_terminal status ≡ true
      → (set_review_status unit_id status reviewed_by ent grp at db).0 ≡ some true
      → set_review_status unit_id status' reviewed_by' ent grp at'
          (set_review_status unit_id status reviewed_by ent grp at db).1
        ≡ (some false, (set_review_status unit_id status reviewed_by ent grp at db).1)
  set_review_status-first db status' reviewed_by' at' terminal h =
      elim (rowcount-cases (undecided unit_id ent grp) db.units) [
        | inl nothing ↦ absurd (not_won db nothing h)
        | inr (r, i, open_r) ↦
            set_review_status-decided unit_id status' reviewed_by' ent grp at' _
              (ap (rowcount (undecided unit_id ent grp)) (written db r i open_r)
                ∙ rowcount-update_self (undecided unit_id ent grp)
                    (decided_row status reviewed_by at) db.units (λ x _. ground (arith, terminal)))
              (ap (λ rows. is_none (fetchone (scoped unit_id ent grp) rows)) (written db r i open_r)
                ∙ still_there db r i open_r)
      ]

  -- Rows of other tenants, and units that are decided already, are not touched by a decision, whether
  -- it wins or not.
  pub set_review_status-others :
      (db : Tables) (r : KnowledgeUnit)
      → In r db.units
      → (is_terminal r.status || not (in_scope ent grp r)) ≡ true
      → In r (set_review_status unit_id status reviewed_by ent grp at db).1.units
  unfolding set_review_status
  set_review_status-others db r i other =
      elim (Bool-cases (nat_eq (rowcount (undecided unit_id ent grp) db.units) 0)) [
        | inl nothing ↦ elim (Bool-cases (is_none (fetchone (scoped unit_id ent grp) db.units))) [
          | inl absent ↦ unchanged (ground (arith, nothing, absent))
          | inr there ↦ unchanged (ground (arith, nothing, there))
        ]
        | inr some_row ↦ rw some_row (
            In-update_other (undecided unit_id ent grp) (decided_row status reviewed_by at) db.units
              i (ground (arith, other)))
      ]
    where
      unchanged :
          (set_review_status unit_id status reviewed_by ent grp at db).1.units ≡ db.units
          → In r (set_review_status unit_id status reviewed_by ent grp at db).1.units
      unchanged same = subst (In r) (sym same) i
