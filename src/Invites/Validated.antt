-- ===== src/Invites/Validated.antt =====
-- What the check of a token promises to the claim that follows it, and what a revocation keeps.
use th_layer_agent.Common.{
  ℕ, String, true, false, ◌&&◌, none, some, List, ◌==◌, is_some, is_none, ◌≡◌, refl, sym, ap, ◌∙◌,
  inl, inr, ◌⊎◌, subst, str_eq→eq, arith, Bool-cases, Option-cases, leb,
}
use th_layer_agent.Sql.{fetchone, update}
use th_layer_agent.Sql.Keys.{by_key}
use th_layer_agent.Sql.Rows.{fetchone-update, fetchone-holds, fetchone-In, rowcount-In}
use th_layer_agent.Invites.{
  Invite, Host, Claims, Decoded, payload, expired_signature, invalid_token, by_id, status,
  validate_invite_jwt, claim_read, refreshed, claim_write, claim_invite, unused, claimed_row,
  revocable, revoked_row, revoke_invite,
}

-- A token that decodes twice decodes to the same payload, at whatever times.
pub record IsStable (host : Host) : Type 0 where
  pub same_claims :
      (token : String) (now later : ℕ) (a b : Claims)
      → host.decode_jwt token now ≡ payload a
      → host.decode_jwt token later ≡ payload b
      → a ≡ b

module _ (host : Host) where
  status-revoked :
      (now : ℕ) (r : Invite)
      → is_some r.revoked_at ≡ true
      → (status host now r == "pending") ≡ false
  unfolding status
  status-revoked now r h = rw h refl

  status-claimed :
      (now : ℕ) (r : Invite)
      → is_some r.claimed_at ≡ true
      → (status host now r == "pending") ≡ false
  unfolding status
  status-claimed now r h = elim (Bool-cases (is_some r.revoked_at)) [
    | inl revoked ↦ rw revoked refl
    | inr live ↦ rw (live, h) refl
  ]

  status-pending :
      (now : ℕ) (r : Invite)
      → (status host now r == "pending") ≡ true
      → (is_none r.claimed_at && is_none r.revoked_at) ≡ true
  status-pending now r h = ground (arith, h, status-revoked now r, status-claimed now r)

  status-pending_text :
      (now : ℕ) (r : Invite)
      → (status host now r == "pending") ≡ true
      → status host now r ≡ "pending"
  status-pending_text now r h = str_eq→eq _ _ h

  -- time alone takes a pending invite to no other state than the expired one
  status-still :
      (now reading : ℕ) (r : Invite)
      → (status host now r == "pending") ≡ true
      → (status host reading r == "expired") ≡ false
      → (status host reading r == "pending") ≡ true
  unfolding status
  status-still now reading r h live =
      let free : (is_none r.claimed_at && is_none r.revoked_at) ≡ true = status-pending now r h in
      let unrevoked : is_some r.revoked_at ≡ false = ground (arith, free) in
      let unclaimed : is_some r.claimed_at ≡ false = ground (arith, free) in
      elim (Option-cases (host.fromisoformat r.expires_at)) [
        | inl unread ↦ rw (unrevoked, unclaimed, unread) refl
        | inr (expires, read) ↦ elim (Bool-cases (leb expires reading)) [
          | inr due ↦ rw (unrevoked, unclaimed, read, due) refl
          | inl late ↦
              let over : (status host reading r == "expired") ≡ true =
                rw (unrevoked, unclaimed, read, late) refl in
              absurd cc
        ]
      ]

  -- What the check read: the token's payload, and the row that its jti names.
  record Seen (token : String) (now : ℕ) (rows : List Invite) (invite : Invite) : Type 0 where
    claims : Claims
    decoded : host.decode_jwt token now ≡ payload claims
    named : (claims.jti == "") ≡ false
    found : fetchone (by_key (λ r. r.jti) claims.jti) rows ≡ some invite
    pending : (status host now invite == "pending") ≡ true

  Decoded-cases :
      (d : Decoded)
      → (d ≡ expired_signature) ⊎ (d ≡ invalid_token) ⊎ ((claims : Claims) × (d ≡ payload claims))
  Decoded-cases expired_signature = inl refl
  Decoded-cases invalid_token = inr (inl refl)
  Decoded-cases (payload claims) = inr (inr (claims, refl))

  validate-Seen :
      (token : String) (now : ℕ) (rows : List Invite) (invite : Invite)
      → validate_invite_jwt host token now rows ≡ some invite
      → Seen token now rows invite
  unfolding validate_invite_jwt
  validate-Seen token now rows invite h = elim (Decoded-cases (host.decode_jwt token now)) [
    | inl late ↦ absurd (ground (arith, late, h))
    | inr (inl bad) ↦ absurd (ground (arith, bad, h))
    | inr (inr (claims, decoded)) ↦
        elim (Option-cases (fetchone (by_key (λ r. r.jti) claims.jti) rows)) [
          | inl absent ↦ absurd (ground (arith, decoded, absent, h))
          | inr (row, found) ↦ elim (Bool-cases (status host now row == "pending")) [
            | inr other ↦ absurd (ground (arith, decoded, found, other, h))
            | inl pending ↦
                let same : row ≡ invite = ground (arith, decoded, found, pending, h) in
                record {
                  claims = claims;
                  decoded = decoded;
                  named = ground (arith, decoded, h);
                  found = found ∙ ap some same;
                  pending = subst (λ r. (status host now r == "pending") ≡ true) same pending;
                }
          ]
        ]
  ]

  claim_read-Seen :
      (token : String) (now : ℕ) (rows : List Invite) (invite : Invite)
      → Seen token now rows invite
      → (claim_read host token now rows).1 ≡ some invite
  unfolding claim_read
  claim_read-Seen token now rows invite s =
      let text = status-pending_text now invite s.pending in
      ground (
        arith,
        s.decoded,
        s.named,
        s.found,
        ap (λ t. t == "claimed") text,
        ap (λ t. t == "revoked") text,
        ap (λ t. t == "expired") text,
      )

  claim-Seen :
      (token : String) (user_id now later : ℕ) (rows : List Invite) (invite : Invite)
      → Seen token now rows invite
      → claim_invite host token user_id now later rows ≡ (
        record {
          kind = "ok";
          invite = some (
              refreshed host invite
                (update (unused host invite.id) (claimed_row host user_id later) rows));
        },
        update (unused host invite.id) (claimed_row host user_id later) rows,
      )
  unfolding claim_invite claim_write
  claim-Seen token user_id now later rows invite s =
      let free : unused host invite.id invite ≡ true =
        ground (arith, status-pending now invite s.pending) in
      let here = fetchone-In (by_key (λ r. r.jti) s.claims.jti) rows s.found in
      ground (
        arith,
        claim_read-Seen token now rows invite s,
        rowcount-In (unused host invite.id) rows here free,
      )

  claimed-invalid :
      IsStable host
      → (token : String) (user_id now later again : ℕ) (rows : List Invite) (invite : Invite)
      → Seen token now rows invite
      → validate_invite_jwt host token again
          (update (unused host invite.id) (claimed_row host user_id later) rows)
        ≡ none
  unfolding validate_invite_jwt
  claimed-invalid stable token user_id now later again rows invite s =
      elim (Decoded-cases (host.decode_jwt token again)) [
        | inl late ↦ ground (arith, late)
        | inr (inl bad) ↦ ground (arith, bad)
        | inr (inr (c, decoded)) ↦
            let same = stable.same_claims token now again s.claims c s.decoded decoded in
            let free : unused host invite.id invite ≡ true =
              ground (arith, status-pending now invite s.pending) in
            let moved =
              fetchone-update (unused host invite.id) (by_key (λ r. r.jti) s.claims.jti)
                (claimed_row host user_id later) rows (λ x. refl) in
            ground (
              arith,
              decoded,
              same,
              moved,
              s.found,
              free,
              status-claimed again (claimed_row host user_id later invite) refl,
            )
      ]

  -- A token that is found valid at one time can be claimed at another: if no other write comes
  -- between, and the token still decodes and its invite is not expired when the claim reads them, the
  -- claim succeeds. From then on the token is not valid. The condition is that a token that decodes
  -- twice decodes to the same payload.
  pub claim_invite-validated :
      IsStable host
      → (token : String) (user_id now reading later again : ℕ) (rows : List Invite)
        (invite : Invite) (claims : Claims)
      → validate_invite_jwt host token now rows ≡ some invite
      → host.decode_jwt token reading ≡ payload claims
      → (status host reading invite == "expired") ≡ false
      → ((claim_invite host token user_id reading later rows).0.kind ≡ "ok")
        × (validate_invite_jwt host token again
              (claim_invite host token user_id reading later rows).1
            ≡ none)
  claim_invite-validated stable token user_id now reading later again rows invite claims h d live =
      let seen = validate-Seen token now rows invite h in
      let same = stable.same_claims token now reading seen.claims claims seen.decoded d in
      let s : Seen token reading rows invite = record {
        claims = seen.claims;
        decoded = d ∙ ap payload (sym same);
        named = seen.named;
        found = seen.found;
        pending = status-still now reading invite seen.pending live;
      } in
      let e = claim-Seen token user_id reading later rows invite s in
      (
        ap (λ r. r.0.kind) e,
        subst (λ r. validate_invite_jwt host token again r.1 ≡ none) (sym e)
            (claimed-invalid stable token user_id reading later again rows invite s),
      )

  -- Revoking an invite again, at whatever time, changes nothing and returns the row with the first
  -- revocation's time.
  pub revoke_invite-again :
      (id now later : ℕ) (rows : List Invite) (invite : Invite)
      → (revoke_invite host id now rows).0 ≡ some invite
      → (is_some invite.revoked_at ≡ true)
        × (revoke_invite host id later (revoke_invite host id now rows).1
            ≡ (some invite, (revoke_invite host id now rows).1))
  unfolding revoke_invite
  revoke_invite-again id now later rows invite h = elim (Option-cases (fetchone (by_id id) rows)) [
    | inl absent ↦ absurd (ground (arith, absent, h))
    | inr (r, found) ↦ elim (Bool-cases (is_some r.revoked_at)) [
      | inl revoked ↦ (ground (arith, found, revoked, h), ground (arith, found, revoked, h))
      | inr live ↦
          let moved : fetchone (by_id id) (update (revocable host id) (revoked_row host now) rows)
              ≡ some (revoked_row host now r) =
            fetchone-update (revocable host id) (by_id id) (revoked_row host now) rows (λ x. refl)
            ∙ ground (arith, found, live, fetchone-holds (by_id id) rows found) in
          (ground (arith, found, live, moved, h), ground (arith, found, live, moved, h))
    ]
  ]
