-- ===== src/Consent/Outcomes.antt =====
-- What each step of a grant does to the two tables: nothing, or the one change that it is for.
use th_layer_agent.Common.{
  ℕ, leb, String, true, false, none, some, ◌==◌, ◌≡◌, refl, ◌⊎◌, inl, inr, arith, Bool-cases,
  Option-cases, str_eq→eq,
}
use th_layer_agent.Common.Exec.{ok, err}
use th_layer_agent.Sql.{fetchone, update, insert, delete}
use th_layer_agent.Sql.Keys.{by_key}
use th_layer_agent.Consent.{
  Error, bad_request, invalid_signature, other_exception, not_found, conflict, expired, Stamp,
  GrantBody, Pending, Db, Host, verify_sig_over_body,
}
use th_layer_agent.Consent.Steps.{
  Proposal, Cosignature, pending_row, propose_grant, is_open, cosigned_row, cosign_grant, grant_row,
  ratify_grant,
}

pub record Proposed (host : Host) (p : Proposal) (now : ℕ) (pending_id : String) (db db' : Db)
    : Type 0 where
  pub by_source : p.proposer_l2 ≡ p.body.source_l2
  pub signed :
      verify_sig_over_body host p.proposer_pubkey_b64u p.body p.proposer_signature_b64u ≡ true
  pub fresh : fetchone (by_key (λ r. r.pending_id) pending_id) db.pending ≡ none
  pub pending : db'.pending ≡ insert (pending_row host p now pending_id) db.pending
  pub grants : db'.grants ≡ db.grants

pub record Cosigned (host : Host) (c : Cosignature) (now : ℕ) (db db' : Db) : Type 0 where
  pub row : Pending
  pub body : GrantBody
  pub found : fetchone (by_key (λ r. r.pending_id) c.pending_id) db.pending ≡ some row
  pub was_proposed : row.status ≡ "proposed"
  pub by_other : (c.cosigner_l2 == row.proposer_l2) ≡ false
  pub by_target : c.cosigner_l2 ≡ row.target_l2
  pub stored : host.loads row.body_canonical ≡ some body
  pub signed :
      verify_sig_over_body host c.cosigner_pubkey_b64u body c.cosigner_signature_b64u ≡ true
  pub pending :
      db'.pending ≡ update (is_open host c.pending_id) (cosigned_row host c now) db.pending
  pub grants : db'.grants ≡ db.grants

pub record Ratified (host : Host) (pending_id : String) (now : ℕ) (db db' : Db) : Type 0 where
  pub row : Pending
  pub body : GrantBody
  pub cosigner_pubkey : String
  pub cosigner_signature : String
  pub expires : Stamp
  pub found : fetchone (by_key (λ r. r.pending_id) pending_id) db.pending ≡ some row
  pub was_cosigned : row.status ≡ "cosigned"
  pub stored : host.loads row.body_canonical ≡ some body
  pub a_signed :
      verify_sig_over_body host row.proposer_pubkey_b64u body row.proposer_signature_b64u ≡ true
  pub b_signed : verify_sig_over_body host cosigner_pubkey body cosigner_signature ≡ true
  pub expires_at : host.fromisoformat body.expires_at ≡ some expires
  pub aware : expires.aware ≡ true
  pub later : leb expires.instant now ≡ false
  pub fresh : fetchone (by_key (λ g. g.grant_id) body.grant_id) db.grants ≡ none
  pub pending : db'.pending ≡ delete (by_key (λ r. r.pending_id) pending_id) db.pending
  pub grants :
      db'.grants ≡ insert (grant_row host row body cosigner_pubkey cosigner_signature now) db.grants

module _ (host : Host) where
  pub propose_grant_outcome :
      (p : Proposal) (now : ℕ) (pending_id : String) (db : Db)
      → ((error : Error) × (propose_grant host p now pending_id db ≡ (err error, db)))
        ⊎ ((db' : Db) × (propose_grant host p now pending_id db ≡ (ok pending_id, db'))
            × Proposed host p now pending_id db db')
  unfolding propose_grant
  propose_grant_outcome p now pending_id db =
      elim (Bool-cases (p.proposer_l2 == p.body.source_l2)) [
        | inr elsewhere ↦ inl (bad_request, ground arith)
        | inl source ↦
            elim (Bool-cases
              (verify_sig_over_body host p.proposer_pubkey_b64u p.body p.proposer_signature_b64u)) [
                | inr forged ↦ inl (invalid_signature, ground arith)
                | inl signed ↦
                    elim (Option-cases
                      (fetchone (by_key (λ r. r.pending_id) pending_id) db.pending)) [
                        | inr (old, taken) ↦ inl (other_exception, ground arith)
                        | inl fresh ↦ inr (
                          record db {
                            pending = insert (pending_row host p now pending_id) db.pending;
                          },
                          ground arith,
                          record {
                            by_source = str_eq→eq _ _ source;
                            signed = signed;
                            fresh = fresh;
                            pending = refl;
                            grants = refl;
                          },
                        )
                      ]
              ]
      ]

  pub cosign_grant_outcome :
      (c : Cosignature) (now : ℕ) (db : Db)
      → ((error : Error) × (cosign_grant host c now db ≡ (err error, db)))
        ⊎ ((db' : Db) × (cosign_grant host c now db ≡ (ok c.pending_id, db'))
            × Cosigned host c now db db')
  unfolding cosign_grant
  cosign_grant_outcome c now db =
      elim (Option-cases (fetchone (by_key (λ r. r.pending_id) c.pending_id) db.pending)) [
        | inl absent ↦ inl (not_found, ground arith)
        | inr (row, found) ↦ elim (Bool-cases (row.status == "proposed")) [
          | inr closed ↦ inl (conflict, ground arith)
          | inl was_open ↦ elim (Option-cases (host.fromisoformat row.expires_at)) [
            | inl unread ↦ inl (bad_request, ground arith)
            | inr (stamp, read) ↦ elim (Bool-cases stamp.aware) [
              | inr naive ↦ inl (bad_request, ground arith)
              | inl aware ↦ elim (Bool-cases (leb stamp.instant now)) [
                | inl late ↦ inl (expired, ground arith)
                | inr due ↦ elim (Bool-cases (c.cosigner_l2 == row.proposer_l2)) [
                  | inl same ↦ inl (bad_request, ground arith)
                  | inr other ↦ elim (Bool-cases (c.cosigner_l2 == row.target_l2)) [
                    | inr stranger ↦ inl (bad_request, ground arith)
                    | inl target ↦ elim (Option-cases (host.loads row.body_canonical)) [
                      | inl broken ↦ inl (other_exception, ground arith)
                      | inr (body, stored) ↦
                          elim (Bool-cases (
                            verify_sig_over_body host c.cosigner_pubkey_b64u body
                              c.cosigner_signature_b64u)) [
                                | inr forged ↦ inl (invalid_signature, ground arith)
                                | inl signed ↦ inr (
                                  record db {
                                    pending =
                                        update (is_open host c.pending_id) (cosigned_row host c now)
                                          db.pending;
                                  },
                                  ground arith,
                                  record {
                                    row = row;
                                    body = body;
                                    found = found;
                                    was_proposed = str_eq→eq _ _ was_open;
                                    by_other = other;
                                    by_target = str_eq→eq _ _ target;
                                    stored = stored;
                                    signed = signed;
                                    pending = refl;
                                    grants = refl;
                                  },
                                )
                              ]
                    ]
                  ]
                ]
              ]
            ]
          ]
        ]
      ]

  pub ratify_grant_outcome :
      (pending_id : String) (now : ℕ) (db : Db)
      → ((error : Error) × (ratify_grant host pending_id now db ≡ (err error, db)))
        ⊎ ((db' : Db) × (change : Ratified host pending_id now db db') × (ratify_grant host
                pending_id now db
              ≡ (ok change.body.grant_id, db')))
  unfolding ratify_grant grant_row
  ratify_grant_outcome pending_id now db =
      elim (Option-cases (fetchone (by_key (λ r. r.pending_id) pending_id) db.pending)) [
        | inl absent ↦ inl (not_found, ground arith)
        | inr (row, found) ↦ elim (Bool-cases (row.status == "cosigned")) [
          | inr other ↦ inl (conflict, ground arith)
          | inl was_cosigned ↦ elim (Option-cases (host.fromisoformat row.expires_at)) [
            | inl unread ↦ inl (bad_request, ground arith)
            | inr (stamp, read) ↦ elim (Bool-cases stamp.aware) [
              | inr naive ↦ inl (bad_request, ground arith)
              | inl aware ↦ elim (Bool-cases (leb stamp.instant now)) [
                | inl late ↦ inl (expired, ground arith)
                | inr due ↦ elim (Option-cases (host.loads row.body_canonical)) [
                  | inl broken ↦ inl (other_exception, ground arith)
                  | inr (body, stored) ↦
                      elim (Bool-cases (
                        verify_sig_over_body host row.proposer_pubkey_b64u body
                          row.proposer_signature_b64u)) [
                            | inr forged ↦ inl (invalid_signature, ground arith)
                            | inl a_signed ↦ elim (Option-cases row.cosigner_pubkey_b64u) [
                              | inl no_key ↦ inl (conflict, ground arith)
                              | inr (key, has_key) ↦
                                  elim (Option-cases row.cosigner_signature_b64u) [
                                    | inl no_signature ↦ inl (conflict, ground arith)
                                    | inr (signature, has_signature) ↦
                                        elim (Bool-cases
                                          (verify_sig_over_body host key body signature)) [
                                            | inr forged ↦ inl (invalid_signature, ground arith)
                                            | inl b_signed ↦
                                                elim (Option-cases
                                                  (host.fromisoformat body.expires_at)) [
                                                    | inl unread ↦ inl (bad_request, ground arith)
                                                    | inr (expires, expires_at) ↦
                                                        elim (Bool-cases expires.aware) [
                                                          | inr naive ↦
                                                            inl (bad_request, ground arith)
                                                          | inl body_aware ↦
                                                            elim (Bool-cases
                                                            (leb expires.instant now)) [
                                                              | inl past ↦
                                                                inl (expired, ground arith)
                                                              | inr later ↦
                                                                elim (Option-cases
                                                                row.cosigner_l2) [
                                                                  | inl no_l2 ↦
                                                                    inl
                                                                    (other_exception, ground arith)
                                                                  | inr (l2, has_l2) ↦
                                                                    elim (Option-cases (
                                                                    fetchone
                                                                    (by_key (λ g. g.grant_id)
                                                                    body.grant_id)
                                                                    db.grants)) [
                                                                      | inr (old, taken) ↦ inl (
                                                                      other_exception,
                                                                      ground arith,
                                                                      )
                                                                      | inl fresh ↦ inr (
                                                                      record {
                                                                      pending =
                                                                      delete
                                                                      (by_key (λ r. r.pending_id)
                                                                      pending_id)
                                                                      db.pending;
                                                                      grants =
                                                                      insert
                                                                      (grant_row host row body key
                                                                      signature now)
                                                                      db.grants;
                                                                      },
                                                                      record {
                                                                      row = row;
                                                                      body = body;
                                                                      cosigner_pubkey = key;
                                                                      cosigner_signature =
                                                                      signature;
                                                                      expires = expires;
                                                                      found = found;
                                                                      was_cosigned =
                                                                      str_eq→eq _ _ was_cosigned;
                                                                      stored = stored;
                                                                      a_signed = a_signed;
                                                                      b_signed = b_signed;
                                                                      expires_at = expires_at;
                                                                      aware = body_aware;
                                                                      later = later;
                                                                      fresh = fresh;
                                                                      pending = refl;
                                                                      grants = refl;
                                                                      },
                                                                      ground arith,
                                                                      )
                                                                    ]
                                                                ]
                                                            ]
                                                        ]
                                                  ]
                                          ]
                                  ]
                            ]
                          ]
                ]
              ]
            ]
          ]
        ]
      ]
