-- ===== src/Review/Submitted.antt =====
-- What a submission to the pending-review tier leaves in the tables.
use th_layer_agent.Common.{
  String, Bool, true, none, some, [], ◌∷◌, nat_eq, length, ◌≡◌, refl, ap, ◌∙◌, inl, inr, arith,
  Bool-cases, Option-cases, str_eq_refl,
}
use th_layer_agent.Sql.{fetchone, update, insert}
use th_layer_agent.Sql.Rows.{fetchone-append_none, fetchone-update}
use th_layer_agent.Sql.Keys.{by_key, IsKeyed, insert-IsKeyed, update-IsKeyed}
use th_layer_agent.Reputation.DailyRoot.{text_lt}
use th_layer_agent.Review.{
  KnowledgeUnit, Tables, NewUnit, normalize_domains, inserted_row, held_row, submit_pending_review,
  visible,
}

module _ (strip lower : String → String) (unit : NewUnit)
    (reason expires_at enterprise_id group_id : String) (db : Tables) where
  stored :
      (submit_pending_review strip lower unit reason expires_at enterprise_id group_id db).0 ≡ true
      → (fetchone (by_key (λ r. r.id) unit.id) db.units ≡ none)
        × ((submit_pending_review strip lower unit reason expires_at enterprise_id group_id
              db).1.units
            ≡ update (by_key (λ r. r.id) unit.id) (held_row reason expires_at) (
                insert
                  (inserted_row unit
                    (normalize_domains strip lower unit.domains)
                    enterprise_id
                    group_id)
                  db.units))
  unfolding submit_pending_review
  stored h = elim (Bool-cases (nat_eq (length (normalize_domains strip lower unit.domains)) 0)) [
    | inl empty ↦ absurd (ground (arith, empty, h))
    | inr some_domain ↦ elim (Option-cases (fetchone (by_key (λ r. r.id) unit.id) db.units)) [
      | inr (old, taken) ↦ absurd (ground (arith, some_domain, taken, h))
      | inl fresh ↦ (fresh, ground (arith, some_domain, fresh))
    ]
  ]

  -- Where ids are a key of the table, a submission that succeeds leaves a row of the unit's id, which
  -- is held for review with the reason and the expiry that were given. The queue of its tenant shows
  -- that row at the times before the expiry and at no other, and ids stay a key.
  pub submit_pending_review-visible :
      IsKeyed (λ r. r.id) db.units
      → (submit_pending_review strip lower unit reason expires_at enterprise_id group_id db).0
        ≡ true
      → (row : KnowledgeUnit) × (fetchone
            (by_key (λ r. r.id) unit.id)
            (submit_pending_review strip lower unit reason expires_at enterprise_id group_id
              db).1.units
          ≡ some row)
        × (row.status ≡ "pending_review")
        × (row.pending_review_reason ≡ some reason)
        × (row.pending_review_expires_at ≡ some expires_at)
        × ((now : String) → visible enterprise_id (some group_id) now row ≡ text_lt now expires_at)
        × IsKeyed
            (λ r. r.id)
            (submit_pending_review strip lower unit reason expires_at enterprise_id group_id
              db).1.units
  unfolding fetchone inserted_row visible
  submit_pending_review-visible k h =
      let new =
        inserted_row unit (normalize_domains strip lower unit.domains) enterprise_id group_id in
      let (fresh, units) = stored h in
      let same : KnowledgeUnit → Bool = by_key (λ r. r.id) unit.id in
      (
        held_row reason expires_at new,
        ap (fetchone same) units
            ∙ fetchone-update same same (held_row reason expires_at) (insert new db.units)
                (λ r. refl)
            ∙ ground
                (arith, fetchone-append_none same db.units (new ∷ []) fresh, str_eq_refl unit.id),
        refl,
        refl,
        refl,
        λ now. ground (arith, str_eq_refl enterprise_id, str_eq_refl group_id),
        rw units (
            update-IsKeyed (λ r. r.id) same (held_row reason expires_at) (insert new db.units)
              (λ r. refl) (insert-IsKeyed (λ r. r.id) db.units new fresh k)),
      )
