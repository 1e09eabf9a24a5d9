-- ===== src/Consent/Authority.antt =====
-- Who revokes a grant, and what a revocation changes.
use th_layer_agent.Common.{
  ℕ, leb, String, Bool, true, false, Option, none, some, ◌==◌, ◌≡◌, refl, ◌⊎◌, inl, inr, arith,
  Bool-cases, Option-cases, str_eq→eq, opt_eq, eq_iff, ◌∙◌, ap,
}
use th_layer_agent.Common.Exec.{ok, err}
use th_layer_agent.Crypto.{verify_envelope_signature}
use th_layer_agent.Sql.{fetchone, update}
use th_layer_agent.Sql.Keys.{by_key}
use th_layer_agent.Consent.{
  Error, Grant, Db, Host, not_found, conflict, invalid_signature, expired, bad_request,
}
use th_layer_agent.Consent.Revoke.{
  Walker, Revocation, revoke_envelope, chained, authorise, is_live, revoked_row, revoke_grant,
}

-- One of the two pinned keys; the recovery key where the request says so; or a key that the walker
-- derives from the key pinned for the revoker's own group.
pub data Authority (req : Revocation) (row : Grant) : Bool → Type 0 where
  recovery :
      req.is_recovery ≡ true
      → req.revoker_pubkey_b64u ≡ row.recovery_operator_pubkey_b64u
      → Authority req row true
  pinned_a :
      req.is_recovery ≡ false
      → req.revoker_pubkey_b64u ≡ row.signer_a_pubkey_b64u
      → Authority req row false
  pinned_b :
      req.is_recovery ≡ false
      → req.revoker_pubkey_b64u ≡ row.signer_b_pubkey_b64u
      → Authority req row false
  lineage_a :
      (walker : Walker)
      → req.key_lineage_walker ≡ some walker
      → req.revoker_l2 ≡ some row.signer_a_l2
      → walker row.signer_a_l2 row.signer_a_pubkey_b64u req.revoker_pubkey_b64u ≡ true
      → Authority req row false
  lineage_b :
      (walker : Walker) (l2 : String)
      → req.key_lineage_walker ≡ some walker
      → req.revoker_l2 ≡ some l2
      → row.signer_b_l2 ≡ some l2
      → walker l2 row.signer_b_pubkey_b64u req.revoker_pubkey_b64u ≡ true
      → Authority req row false

opt_eq-some : (a : String) (o : Option String) → opt_eq (some a) o ≡ true → o ≡ some a
opt_eq-some a none h = ground arith
opt_eq-some a (some b) h = ground (arith, eq_iff a b)

module _ (req : Revocation) (row : Grant) (db : Db) where
  lineage_outcome :
      (walker : Walker) (l2 : String)
      → req.key_lineage_walker ≡ some walker
      → req.revoker_l2 ≡ some l2
      → chained walker l2 req.revoker_pubkey_b64u row ≡ true
      → Authority req row false
  unfolding chained
  lineage_outcome walker l2 w l h = elim (Bool-cases (l2 == row.signer_a_l2)) [
    | inl at_a ↦
        let same = str_eq→eq l2 row.signer_a_l2 at_a in
        lineage_a walker w (l ∙ ap some same) (ground arith)
    | inr not_a ↦ elim (Bool-cases (opt_eq (some l2) row.signer_b_l2)) [
      | inl at_b ↦ lineage_b walker l2 w l (opt_eq-some l2 row.signer_b_l2 at_b) (ground arith)
      | inr not_b ↦ absurd (ground arith)
    ]
  ]

  pub authorise_outcome :
      ((error : Error) × (authorise req row db ≡ (err error, db)))
      ⊎ ((by_recovery : Bool) × (authorise req row db ≡ (ok by_recovery, db))
          × Authority req row by_recovery)
  unfolding authorise
  authorise_outcome = elim (Bool-cases req.is_recovery) [
    | inl recover ↦
        elim (Bool-cases (req.revoker_pubkey_b64u == row.recovery_operator_pubkey_b64u)) [
          | inr other ↦ inl (invalid_signature, ground arith)
          | inl key ↦ inr (true, ground arith, recovery recover (str_eq→eq _ _ key))
        ]
    | inr normal ↦ elim (Bool-cases (req.revoker_pubkey_b64u == row.signer_a_pubkey_b64u)) [
      | inl a ↦ inr (false, ground arith, pinned_a normal (str_eq→eq _ _ a))
      | inr not_a ↦ elim (Bool-cases (req.revoker_pubkey_b64u == row.signer_b_pubkey_b64u)) [
        | inl b ↦ inr (false, ground arith, pinned_b normal (str_eq→eq _ _ b))
        | inr not_b ↦
            elim (Bool-cases (req.revoker_pubkey_b64u == row.recovery_operator_pubkey_b64u)) [
              | inl key ↦ inl (bad_request, ground arith)
              | inr stranger ↦ elim (Option-cases req.key_lineage_walker) [
                | inl no_walker ↦ inl (invalid_signature, ground arith)
                | inr (walker, w) ↦ elim (Option-cases req.revoker_l2) [
                  | inl nameless ↦ inl (invalid_signature, ground arith)
                  | inr (l2, l) ↦
                      elim (Bool-cases (chained walker l2 req.revoker_pubkey_b64u row)) [
                        | inr unchained ↦ inl (invalid_signature, ground arith)
                        | inl linked ↦
                            inr (false, ground arith, lineage_outcome walker l2 w l linked)
                      ]
                ]
              ]
            ]
      ]
    ]
  ]

pub record Revoked (host : Host) (req : Revocation) (now : ℕ) (by_recovery : Bool) (db db' : Db)
    : Type 0 where
  pub row : Grant
  pub found : fetchone (by_key (λ g. g.grant_id) req.grant_id) db.grants ≡ some row
  pub was_active : row.status ≡ "active"
  pub signed :
      verify_envelope_signature host.ed25519 req.revoker_pubkey_b64u
        (host.canonicalize_revoke (revoke_envelope req))
        req.revoker_signature_b64u
      ≡ true
  pub authority : Authority req row by_recovery
  pub pending : db'.pending ≡ db.pending
  pub grants :
      db'.grants ≡ update (is_live req.grant_id) (revoked_row host req by_recovery now) db.grants

module _ (host : Host) (req : Revocation) (now : ℕ) (db : Db) where
  -- A revocation changes nothing, or it is of an active grant, signed, and by one of the accepted
  -- authorities.
  pub revoke_grant_outcome :
      ((error : Error) × (revoke_grant host req now db ≡ (err error, db)))
      ⊎ ((by_recovery : Bool) × (db' : Db) × (revoke_grant host req now db ≡ (ok by_recovery, db'))
          × Revoked host req now by_recovery db db')
  unfolding revoke_grant
  revoke_grant_outcome =
      elim (Option-cases (fetchone (by_key (λ g. g.grant_id) req.grant_id) db.grants)) [
        | inl absent ↦ inl (not_found, ground arith)
        | inr (row, found) ↦ elim (Bool-cases (row.status == "active")) [
          | inr dead ↦ inl (conflict, ground arith)
          | inl live ↦ elim (Option-cases (host.fromisoformat row.expires_at)) [
            | inl unread ↦ inl (bad_request, ground arith)
            | inr (stamp, read) ↦ elim (Bool-cases stamp.aware) [
              | inr naive ↦ inl (bad_request, ground arith)
              | inl aware ↦ elim (Bool-cases (leb stamp.instant now)) [
                | inl late ↦ inl (expired, ground arith)
                | inr due ↦
                    elim (Bool-cases (
                      verify_envelope_signature host.ed25519 req.revoker_pubkey_b64u
                        (host.canonicalize_revoke (revoke_envelope req))
                        req.revoker_signature_b64u)) [
                          | inr forged ↦ inl (invalid_signature, ground arith)
                          | inl signed ↦ elim (authorise_outcome req row db) [
                            | inl (error, refused) ↦ inl (error, ground arith)
                            | inr (by_recovery, allowed, authority) ↦ inr (
                              by_recovery,
                              record db {
                                grants =
                                    update (is_live req.grant_id)
                                      (revoked_row host req by_recovery now) db.grants;
                              },
                              ground arith,
                              record {
                                row = row;
                                found = found;
                                was_active = str_eq→eq _ _ live;
                                signed = signed;
                                authority = authority;
                                pending = refl;
                                grants = refl;
                              },
                            )
                          ]
                        ]
              ]
            ]
          ]
        ]
      ]
