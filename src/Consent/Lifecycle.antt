-- ===== src/Consent/Lifecycle.antt =====
-- xgroup_consent.py: the ratification that makes a grant usable, and the revocation that ends it.
use th_layer_agent.Common.{
  ℕ, String, Bool, true, false, some, ◌≡◌, refl, inl, inr, arith, str_eq→eq, [], ◌∷◌, sym, eq_iff,
  str_eq_refl, ◌∙◌, ap, sym, ltb, leb,
}
use th_layer_agent.Common.Exec.{ok, err, ok_inj}
use th_layer_agent.Sql.{fetchone}
use th_layer_agent.Sql.Rows.{
  fetchone-append_none, fetchone-update, fetchone-holds, fetchone-delete_self,
}
use th_layer_agent.Sql.Keys.{by_key}
use th_layer_agent.Consent.{Db, Host, not_found, conflict, Pending, GrantBody, Stamp}
use th_layer_agent.Consent.Steps.{ratify_grant, grant_row}
use th_layer_agent.Consent.Reads.{is_grant_usable}
use th_layer_agent.Consent.Revoke.{Revocation, revoked_row, revoke_grant, is_live}
use th_layer_agent.Consent.Outcomes.{Ratified, ratify_grant_outcome}
use th_layer_agent.Consent.Authority.{Revoked, revoke_grant_outcome}

module _ (host : Host) where
  Ratified-usable :
      (pending_id : String) (now later : ℕ) (db : Db) {db' : Db}
      (change : Ratified host pending_id now db db')
      → is_grant_usable host change.body.grant_id later db'
        ≡ (ok (ltb later change.expires.instant), db')
  unfolding is_grant_usable grant_row fetchone
  Ratified-usable pending_id now later db {db'} change =
      let row =
        grant_row host change.row change.body change.cosigner_pubkey change.cosigner_signature
          now in
      let here : fetchone (by_key (λ g. g.grant_id) change.body.grant_id) db'.grants ≡ some row =
        ground (
          arith,
          change.grants,
          str_eq_refl change.body.grant_id,
          fetchone-append_none (by_key (λ g. g.grant_id) change.body.grant_id) db.grants (row ∷ [])
              change.fresh,
        ) in
      ground (arith, here, change.expires_at, change.aware)

  Ratified-again :
      (pending_id : String) (now later : ℕ) (db : Db) {db' : Db}
      → Ratified host pending_id now db db'
      → ratify_grant host pending_id later db' ≡ (err not_found, db')
  unfolding ratify_grant
  Ratified-again pending_id now later db change = ground (
    arith,
    change.pending,
    fetchone-delete_self (by_key (λ r. r.pending_id) pending_id) db.pending,
  )

  -- A ratification that succeeds is of a proposal whose stored body names an expiry that is still to
  -- come, and returns the id of a grant that, while no other handler writes, is usable at the times
  -- before that expiry and at no other. The same proposal cannot be ratified twice: every later
  -- attempt finds nothing.
  pub ratify_grant-usable :
      (pending_id grant_id : String) (now : ℕ) (db : Db)
      → (ratify_grant host pending_id now db).0 ≡ ok grant_id
      → (row : Pending) × (body : GrantBody) × (expires : Stamp) × (fetchone
            (by_key (λ r. r.pending_id) pending_id)
            db.pending
          ≡ some row)
        × (host.loads row.body_canonical ≡ some body)
        × (host.fromisoformat body.expires_at ≡ some expires)
        × (leb expires.instant now ≡ false)
        × ((later : ℕ)
            → is_grant_usable host grant_id later (ratify_grant host pending_id now db).1
              ≡ (ok (ltb later expires.instant), (ratify_grant host pending_id now db).1))
        × ((later : ℕ)
            → ratify_grant host pending_id later (ratify_grant host pending_id now db).1
              ≡ (err not_found, (ratify_grant host pending_id now db).1))
  ratify_grant-usable pending_id grant_id now db h =
      elim (ratify_grant_outcome host pending_id now db) [
        | inl (error, e) ↦ absurd (ground (arith, e))
        | inr (db', change, e) ↦
            let same : change.body.grant_id ≡ grant_id = ok_inj (sym (ap (λ r. r.0) e) ∙ h) in
            (
              change.row,
              change.body,
              change.expires,
              change.found,
              change.stored,
              change.expires_at,
              change.later,
              λ later. rw (e, sym same) (Ratified-usable pending_id now later db change),
              λ later. rw e (Ratified-again pending_id now later db change),
            )
      ]

  module _ (req : Revocation) (now : ℕ) (by_recovery : Bool) (db : Db) {db' : Db}
      (change : Revoked host req now by_recovery db db') where
    revoked_grant :
        fetchone (by_key (λ g. g.grant_id) req.grant_id) db'.grants
        ≡ some (revoked_row host req by_recovery now change.row)
    unfolding revoked_row
    revoked_grant =
        let id : change.row.grant_id ≡ req.grant_id =
          str_eq→eq _ _
            (fetchone-holds (by_key (λ g. g.grant_id) req.grant_id) db.grants change.found) in
        let live : is_live req.grant_id change.row ≡ true = ground (
          arith,
          eq_iff change.row.grant_id req.grant_id,
          eq_iff change.row.status "active",
          id,
          change.was_active,
        ) in
        ap (fetchone (by_key (λ g. g.grant_id) req.grant_id)) change.grants
        ∙ fetchone-update (is_live req.grant_id) (by_key (λ g. g.grant_id) req.grant_id)
            (revoked_row host req by_recovery now) db.grants (λ r. refl)
        ∙ rw (change.found, live) refl

    Revoked-unusable : (later : ℕ) → is_grant_usable host req.grant_id later db' ≡ (ok false, db')
    unfolding is_grant_usable revoked_row
    Revoked-unusable later = ground (arith, revoked_grant)

    Revoked-again :
        (again : Revocation) (later : ℕ)
        → again.grant_id ≡ req.grant_id
        → revoke_grant host again later db' ≡ (err conflict, db')
    unfolding revoke_grant revoked_row
    Revoked-again again later same = ground (arith, revoked_grant, same)

  -- A revocation that succeeds was of an active grant by one of the accepted authorities, over a
  -- signature that verifies, and records whether it was the recovery key's; afterwards the grant is
  -- not usable at any time, and no further revocation of it is accepted.
  pub revoke_grant-authorised :
      (req : Revocation) (now : ℕ) (by_recovery : Bool) (db : Db)
      → (revoke_grant host req now db).0 ≡ ok by_recovery
      → Revoked host req now by_recovery db (revoke_grant host req now db).1
        × ((later : ℕ)
            → is_grant_usable host req.grant_id later (revoke_grant host req now db).1
              ≡ (ok false, (revoke_grant host req now db).1))
        × ((again : Revocation) (later : ℕ)
            → again.grant_id ≡ req.grant_id
            → revoke_grant host again later (revoke_grant host req now db).1
              ≡ (err conflict, (revoke_grant host req now db).1))
  revoke_grant-authorised req now by_recovery db h = elim (revoke_grant_outcome host req now db) [
    | inl (error, e) ↦ absurd (ground (arith, e))
    | inr (rec, db', e, change) ↦
        let same : rec ≡ by_recovery = ok_inj (sym (ap (λ r. r.0) e) ∙ h) in
        rw (e, sym same)
          (change, Revoked-unusable req now rec db change, Revoked-again req now rec db change)
  ]
