-- ===== src/Invites/SingleUse.antt =====
-- invites.py: the writes of concurrent calls to one invite, in any order.
use th_layer_agent.Common.{
  ℕ, nat_eq, String, Bool, true, false, not, ◌&&◌, ◌||◌, Option, none, some, List, [], ◌∷◌, ◌==◌,
  is_some, is_none, ◌≡◌, ◌≢◌, refl, sym, ap, ◌∙◌, inl, inr, arith, All, All-append, str_ne,
  Bool-cases, Option-cases,
}
use th_layer_agent.Sql.{fetchone, rowcount, update}
use th_layer_agent.Sql.Rows.{
  fetchone-none-weaken, fetchone-none-rowcount, All-update, fetchone-update, fetchone-append_some,
}
use th_layer_agent.Invites.{
  Invite, Host, MintRequest, by_id, mint_invite, get_by_id, unused, claimed_row, lost_race,
  claim_write, revocable, revoked_row, revoke_write,
}

-- The writes of the handlers: an invite minted, a claim and a revocation of an invite read before.
pub data Step : Type 0 where
  mint : MintRequest → ℕ → String → ℕ → Step
  claim : Invite → ℕ → ℕ → Step
  revoke : ℕ → ℕ → Step

module _ (host : Host) where
  unfoldable pub step : Step → List Invite → List Invite
  step (mint req now jti id) rows = (mint_invite host req now jti id rows).1
  step (claim invite user_id now) rows = (claim_write host invite user_id now rows).1
  step (revoke id now) rows = (revoke_write host id now rows).1

  unfoldable pub steps : List Step → List Invite → List Invite
  unfolding step
  steps [] rows = rows
  steps (s ∷ rest) rows = steps rest (step s rows)

-- No row with this id can be claimed any more, and there is one.
unfoldable pub IsUsed : ℕ → Invite → Type 0
IsUsed id r = by_id id r ≡ true → (is_none r.claimed_at && is_none r.revoked_at) ≡ false

pub record Closed (id : ℕ) (rows : List Invite) : Type 0 where
  pub used : All (IsUsed id) rows
  pub there : is_some (fetchone (by_id id) rows) ≡ true

module _ (host : Host) (id : ℕ) where
  rowcount-Closed : (rows : List Invite) → All (IsUsed id) rows → rowcount (unused host id) rows ≡ 0
  unfolding rowcount IsUsed
  rowcount-Closed [] a = refl
  rowcount-Closed (r ∷ rows) a = ground (arith, a.0, rowcount-Closed rows a.1)

  update-there :
      (p : Invite → Bool) (f : Invite → Invite) (rows : List Invite)
      → ((r : Invite) → (f r).id ≡ r.id)
      → is_some (fetchone (by_id id) rows) ≡ true
      → is_some (fetchone (by_id id) (update p f rows)) ≡ true
  update-there p f rows same h = elim (Option-cases (fetchone (by_id id) rows)) [
    | inl absent ↦ absurd (ground (arith, absent, h))
    | inr (r, found) ↦
        let moved = fetchone-update p (by_id id) f rows (λ x. ap (λ i. nat_eq i id) (same x)) in
        rw (moved, found) refl
  ]

  mint-Closed :
      (req : MintRequest) (now : ℕ) (jti : String) (new_id : ℕ) (rows : List Invite)
      → Closed id rows
      → Closed id (mint_invite host req now jti new_id rows).1
  unfolding mint_invite IsUsed
  mint-Closed req now jti new_id rows c =
      elim (Bool-cases (not (req.role == "enterprise_admin") && is_none req.target_l2_id)) [
        | inl refused ↦ rw refused c
        | inr allowed ↦
            elim (Option-cases (fetchone (λ r. by_id new_id r || (r.jti == jti)) rows)) [
              | inr (old, taken) ↦ rw (allowed, taken) c
              | inl fresh ↦
                  rw (allowed, fresh)
                    (record {
                      used = All-append (IsUsed id) rows _ c.used (
                        λ here. absurd (
                            ground (
                              arith,
                              here,
                              c.there,
                              fetchone-none-weaken (λ r. by_id new_id r || (r.jti == jti))
                                  (by_id new_id) rows (λ r b. ground (arith, b)) fresh,
                            )),
                        tt,
                      );
                      there = elim (Option-cases (fetchone (by_id id) rows)) [
                        | inl absent ↦ absurd (ground (arith, absent, c.there))
                        | inr (r, found) ↦ rw (fetchone-append_some (by_id id) rows _ found) refl
                      ];
                    })
            ]
      ]

  claim-Closed :
      (invite : Invite) (user_id now : ℕ) (rows : List Invite)
      → Closed id rows
      → Closed id (claim_write host invite user_id now rows).1
  unfolding claim_write IsUsed
  claim-Closed invite user_id now rows c =
      elim (Bool-cases (nat_eq (rowcount (unused host invite.id) rows) 0)) [
        | inl lost ↦ rw lost c
        | inr won ↦ rw won (record {
          used =
              All-update (unused host invite.id) (IsUsed id) (claimed_row host user_id now) rows
                (λ r u yes h. refl) c.used;
          there =
              update-there (unused host invite.id) (claimed_row host user_id now) rows (λ r. refl)
                c.there;
        })
      ]

  revoke-Closed :
      (other now : ℕ) (rows : List Invite)
      → Closed id rows
      → Closed id (revoke_write host other now rows).1
  unfolding revoke_write IsUsed
  revoke-Closed other now rows c = record {
    used =
        All-update (revocable host other) (IsUsed id) (revoked_row host now) rows
          (λ r u yes h. ground arith) c.used;
    there = update-there (revocable host other) (revoked_row host now) rows (λ r. refl) c.there;
  }

  step-Closed : (s : Step) (rows : List Invite) → Closed id rows → Closed id (step host s rows)
  unfolding step
  step-Closed (mint req now jti new_id) rows c = mint-Closed req now jti new_id rows c
  step-Closed (claim invite user_id now) rows c = claim-Closed invite user_id now rows c
  step-Closed (revoke other now) rows c = revoke-Closed other now rows c

  steps-Closed :
      (ss : List Step) (rows : List Invite) → Closed id rows → Closed id (steps host ss rows)
  unfolding steps
  steps-Closed [] rows c = c
  steps-Closed (s ∷ ss) rows c = steps-Closed ss (step host s rows) (step-Closed s rows c)

  -- an update that marks every row with the id closes it
  update-closes :
      (p : Invite → Bool) (f : Invite → Invite) (rows : List Invite)
      → ((r : Invite) → (f r).id ≡ r.id)
      → ((r : Invite) → p r ≡ true → IsUsed id (f r))
      → ((r : Invite) → p r ≡ false → IsUsed id r)
      → All (IsUsed id) (update p f rows)
  unfolding update
  update-closes p f [] same kept other = tt
  update-closes p f (r ∷ rows) same kept other = elim (Bool-cases (p r)) [
    | inl y ↦ (rw y (kept r y), update-closes p f rows same kept other)
    | inr n ↦ (rw n (other r n), update-closes p f rows same kept other)
  ]

  claim_write-Closed :
      (invite : Invite) (user_id now : ℕ) (rows : List Invite)
      → invite.id ≡ id
      → Closed id rows
      → (claim_write host invite user_id now rows).0 ≡ lost_race host (get_by_id host id rows)
  unfolding claim_write
  claim_write-Closed invite user_id now rows same c =
      ground (arith, same, rowcount-Closed rows c.used)

  lost_race-kind_eq : (o : Option Invite) → ((lost_race host o).kind == "ok") ≡ false
  unfolding lost_race
  lost_race-kind_eq none = refl
  lost_race-kind_eq (some current) = elim (Bool-cases (is_some current.revoked_at)) [
    | inl revoked ↦ rw revoked refl
    | inr live ↦ elim (Bool-cases (is_some current.claimed_at)) [
      | inl claimed ↦ rw (live, claimed) refl
      | inr idle ↦ rw (live, idle) refl
    ]
  ]

  lost_race-kind : (o : Option Invite) → (lost_race host o).kind ≢ "ok"
  lost_race-kind o h = str_ne _ _ (lost_race-kind_eq o) h

  claim-closes :
      (invite : Invite) (user_id now : ℕ) (rows : List Invite)
      → invite.id ≡ id
      → (claim_write host invite user_id now rows).0.kind ≡ "ok"
      → Closed id (claim_write host invite user_id now rows).1
  unfolding claim_write IsUsed
  claim-closes invite user_id now rows same h =
      elim (Bool-cases (nat_eq (rowcount (unused host invite.id) rows) 0)) [
        | inl lost ↦
            let seen : (claim_write host invite user_id now rows).0
                ≡ lost_race host (get_by_id host invite.id rows) =
              ground (arith, lost) in
            absurd
              (lost_race-kind (get_by_id host invite.id rows) (sym (ap (λ o. o.kind) seen) ∙ h))
        | inr won ↦ rw won (record {
          used =
              update-closes (unused host invite.id) (claimed_row host user_id now) rows (λ r. refl)
                (λ r yes here. refl) (λ r no here. ground (arith, same, no, here));
          there = elim (Option-cases (fetchone (by_id id) rows)) [
            | inl absent ↦ absurd (
                ground (
                  arith,
                  won,
                  fetchone-none-rowcount (unused host invite.id) rows (
                      fetchone-none-weaken (by_id id) (unused host invite.id) rows
                        (λ r u. ground (arith, same, u)) absent),
                ))
            | inr (r, found) ↦
                update-there (unused host invite.id) (claimed_row host user_id now) rows (λ x. refl)
                  (rw found refl)
          ];
        })
      ]

  revoke-closes :
      (now : ℕ) (rows : List Invite)
      → is_some (fetchone (by_id id) rows) ≡ true
      → Closed id (revoke_write host id now rows).1
  unfolding revoke_write IsUsed
  revoke-closes now rows h = record {
    used =
        update-closes (revocable host id) (revoked_row host now) rows (λ r. refl)
          (λ r yes here. ground arith) (λ r no here. ground (arith, no, here));
    there = update-there (revocable host id) (revoked_row host now) rows (λ x. refl) h;
  }

module _ (host : Host) where
  -- Once a claim of an invite has succeeded, no later claim of it does, whatever mints, claims and
  -- revocations are written in between.
  pub claim_write-once :
      (first again : Invite) (user_id now user_id' later : ℕ) (rows : List Invite) (ss : List Step)
      → (claim_write host first user_id now rows).0.kind ≡ "ok"
      → again.id ≡ first.id
      → (claim_write host again user_id' later
          (steps host ss (claim_write host first user_id now rows).1)).0.kind
        ≢ "ok"
  claim_write-once first again user_id now user_id' later rows ss h same k =
      let closed =
        steps-Closed host first.id ss _
          (claim-closes host first.id first user_id now rows refl h) in
      lost_race-kind host first.id _ (
        sym (ap (λ o. o.kind) (claim_write-Closed host first.id again user_id' later _ same closed))
        ∙ k)

  -- Once the revocation of an invite that is there has been written, no later claim of it succeeds,
  -- whatever mints, claims and revocations are written in between.
  pub revoke_write-blocks :
      (id now : ℕ) (invite : Invite) (user_id later : ℕ) (rows : List Invite) (ss : List Step)
      → is_some (get_by_id host id rows) ≡ true
      → invite.id ≡ id
      → (claim_write host invite user_id later
          (steps host ss (revoke_write host id now rows).1)).0.kind
        ≢ "ok"
  unfolding get_by_id
  revoke_write-blocks id now invite user_id later rows ss h same k =
      let closed = steps-Closed host id ss _ (revoke-closes host id now rows h) in
      lost_race-kind host id _
        (sym (ap (λ o. o.kind) (claim_write-Closed host id invite user_id later _ same closed)) ∙ k)
