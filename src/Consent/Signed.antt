-- ===== src/Consent/Signed.antt =====
-- xgroup_consent.py: the 2-of-2 rule over every sequence of its handlers.
use th_layer_agent.Common.{
  if◌then◌else◌, ℕ, String, Bool, true, false, some, ◌==◌, ◌≡◌, refl, sym, ◌∙◌, ap, subst, List, [],
  ◌∷◌, All, All-append, inl, inr, arith, some_inj, str_eq→eq, eq_iff,
}
use th_layer_agent.Sql.{fetchone}
use th_layer_agent.Sql.Rows.{All-update, All-delete, fetchone-All, fetchone-holds}
use th_layer_agent.Sql.Keys.{
  by_key, IsKeyed, insert-IsKeyed, update-IsKeyed, delete-IsKeyed, All-update_key,
}
use th_layer_agent.Consent.{GrantBody, Pending, Grant, Db, Host, verify_sig_over_body}
use th_layer_agent.Consent.Steps.{
  Proposal, Cosignature, pending_row, propose_grant, is_open, cosigned_row, cosign_grant, grant_row,
  ratify_grant,
}
use th_layer_agent.Consent.Revoke.{Revocation, revoked_row, revoke_grant, is_live}
use th_layer_agent.Consent.Authority.{Revoked, revoke_grant_outcome}
use th_layer_agent.Consent.Outcomes.{
  Proposed, Cosigned, Ratified, propose_grant_outcome, cosign_grant_outcome, ratify_grant_outcome,
}

-- A canonical text reads back as the body that it was made from.
pub record ReadsBack (host : Host) : Type 0 where
  pub loads-canonicalize : (body : GrantBody) → host.loads (host.canonicalize body) ≡ some body

-- A proposal names its source as the proposer, and a cosigned one has the other group's name.
pub record IsProposal (host : Host) (r : Pending) : Type 0 where
  pub body : GrantBody
  pub canonical : r.body_canonical ≡ host.canonicalize body
  pub source : r.proposer_l2 ≡ body.source_l2
  pub target : r.target_l2 ≡ body.target_l2
  pub cosigner :
      r.status ≡ "cosigned"
      → (r.cosigner_l2 ≡ some r.target_l2) × ((r.target_l2 == r.proposer_l2) ≡ false)

-- Both groups named in the body are different, and each signed the body that the row stores.
pub record IsTwoOfTwo (host : Host) (g : Grant) : Type 0 where
  pub body : GrantBody
  pub canonical : g.body_canonical ≡ host.canonicalize body
  pub id : g.grant_id ≡ body.grant_id
  pub until : g.expires_at ≡ body.expires_at
  pub source : g.signer_a_l2 ≡ body.source_l2
  pub target : g.signer_b_l2 ≡ some body.target_l2
  pub distinct : (body.target_l2 == body.source_l2) ≡ false
  pub a_signed :
      verify_sig_over_body host g.signer_a_pubkey_b64u body g.signer_a_signature_b64u ≡ true
  pub b_signed :
      verify_sig_over_body host g.signer_b_pubkey_b64u body g.signer_b_signature_b64u ≡ true

pub record IsConsented (host : Host) (db : Db) : Type 0 where
  pub proposals : All (IsProposal host) db.pending
  pub keyed : IsKeyed (λ r. r.pending_id) db.pending
  pub granted : All (IsTwoOfTwo host) db.grants
  pub grant_keyed : IsKeyed (λ g. g.grant_id) db.grants

module _ (host : Host) (reads : ReadsBack host) where
  Proposed-IsConsented :
      (p : Proposal) (now : ℕ) (pending_id : String) (db : Db) {db' : Db}
      → Proposed host p now pending_id db db'
      → IsConsented host db
      → IsConsented host db'
  unfolding pending_row
  Proposed-IsConsented p now pending_id db change c = record {
    proposals = rw change.pending (
        All-append (IsProposal host) db.pending _ c.proposals (
          record {
            body = p.body;
            canonical = refl;
            source = change.by_source;
            target = refl;
            cosigner = λ e. absurd (subst (λ s. if s == "cosigned" then ⊥ else Unit {0}) e tt);
          },
          tt,
        ));
    keyed =
        rw change.pending (insert-IsKeyed (λ r. r.pending_id) db.pending _ change.fresh c.keyed);
    granted = rw change.grants c.granted;
    grant_keyed = rw change.grants c.grant_keyed;
  }

  Cosigned-IsProposal :
      (c : Cosignature) (now : ℕ) (row : Pending)
      → (c.cosigner_l2 == row.proposer_l2) ≡ false
      → c.cosigner_l2 ≡ row.target_l2
      → IsProposal host row
      → IsProposal host (cosigned_row host c now row)
  unfolding cosigned_row
  Cosigned-IsProposal c now row other target p = record {
    body = p.body;
    canonical = p.canonical;
    source = p.source;
    target = p.target;
    cosigner = λ _. (ap some target, subst (λ l2. (l2 == row.proposer_l2) ≡ false) target other);
  }

  Cosigned-IsConsented :
      (c : Cosignature) (now : ℕ) (db : Db) {db' : Db}
      → Cosigned host c now db db'
      → IsConsented host db
      → IsConsented host db'
  unfolding cosigned_row
  Cosigned-IsConsented c now db change w = record {
    proposals = rw change.pending (
        All-update_key (λ r. r.pending_id) (IsProposal host) (is_open host c.pending_id)
          (cosigned_row host c now) db.pending {row = change.row} w.keyed
          (ap (λ k. fetchone (by_key (λ r. r.pending_id) k) db.pending) key ∙ change.found)
          (λ r yes. ground (arith, eq_iff r.pending_id c.pending_id, key))
          (Cosigned-IsProposal c now change.row change.by_other change.by_target) w.proposals);
    keyed =
        rw change.pending (update-IsKeyed (λ r. r.pending_id) _ _ db.pending (λ r. refl) w.keyed);
    granted = rw change.grants w.granted;
    grant_keyed = rw change.grants w.grant_keyed;
  }
    where
      key : change.row.pending_id ≡ c.pending_id
      key =
          str_eq→eq _ _
            (fetchone-holds (by_key (λ r. r.pending_id) c.pending_id) db.pending change.found)

  Ratified-IsTwoOfTwo :
      (pending_id : String) (now : ℕ) (db : Db) {db' : Db}
      (change : Ratified host pending_id now db db')
      → IsProposal host change.row
      → IsTwoOfTwo host (
          grant_row host change.row change.body change.cosigner_pubkey change.cosigner_signature
            now)
  unfolding grant_row
  Ratified-IsTwoOfTwo pending_id now db change p =
      let same : p.body ≡ change.body =
        some_inj (
          sym (reads.loads-canonicalize p.body)
          ∙ ap host.loads (sym p.canonical)
          ∙ change.stored) in
      let both = p.cosigner change.was_cosigned in
      record {
        body = change.body;
        canonical = p.canonical ∙ ap host.canonicalize same;
        id = refl;
        until = refl;
        source = p.source ∙ ap (λ b. b.source_l2) same;
        target = both.0 ∙ ap some (p.target ∙ ap (λ b. b.target_l2) same);
        distinct = ground (arith, both.1, p.target, p.source, same);
        a_signed = change.a_signed;
        b_signed = change.b_signed;
      }

  Ratified-IsConsented :
      (pending_id : String) (now : ℕ) (db : Db) {db' : Db}
      → Ratified host pending_id now db db'
      → IsConsented host db
      → IsConsented host db'
  unfolding grant_row
  Ratified-IsConsented pending_id now db change w = record {
    proposals = rw change.pending (All-delete _ (IsProposal host) db.pending w.proposals);
    keyed = rw change.pending (delete-IsKeyed (λ r. r.pending_id) _ db.pending w.keyed);
    granted = rw change.grants (
        All-append (IsTwoOfTwo host) db.grants _ w.granted (
          Ratified-IsTwoOfTwo pending_id now db change
              (fetchone-All _ (IsProposal host) db.pending w.proposals change.found),
          tt,
        ));
    grant_keyed =
        rw change.grants (insert-IsKeyed (λ g. g.grant_id) db.grants _ change.fresh w.grant_keyed);
  }

  Revoked-IsConsented :
      (req : Revocation) (now : ℕ) (by_recovery : Bool) (db : Db) {db' : Db}
      → Revoked host req now by_recovery db db'
      → IsConsented host db
      → IsConsented host db'
  unfolding revoked_row
  Revoked-IsConsented req now by_recovery db change w = record {
    proposals = rw change.pending w.proposals;
    keyed = rw change.pending w.keyed;
    granted = rw change.grants (
        All-update (is_live req.grant_id) (IsTwoOfTwo host) (revoked_row host req by_recovery now)
          db.grants
          (λ r two _. record {
            body = two.body;
            canonical = two.canonical;
            id = two.id;
            until = two.until;
            source = two.source;
            target = two.target;
            distinct = two.distinct;
            a_signed = two.a_signed;
            b_signed = two.b_signed;
          })
          w.granted);
    grant_keyed =
        rw change.grants (update-IsKeyed (λ g. g.grant_id) _ _ db.grants (λ r. refl) w.grant_keyed);
  }

-- A call of one of the four handlers, at a time, with the id that a proposal draws.
pub data Call : Type 0 where
  propose : Proposal → ℕ → String → Call
  cosign : Cosignature → ℕ → Call
  ratify : String → ℕ → Call
  revoke : Revocation → ℕ → Call

unfoldable pub call : Host → Call → Db → Db
call host (propose p now pending_id) db = (propose_grant host p now pending_id db).1
call host (cosign c now) db = (cosign_grant host c now db).1
call host (ratify pending_id now) db = (ratify_grant host pending_id now db).1
call host (revoke req now) db = (revoke_grant host req now db).1

unfoldable pub calls : Host → List Call → Db → Db
unfolding call
calls host [] db = db
calls host (c ∷ rest) db = calls host rest (call host c db)

abbrev pub no_rows : Db
no_rows = record { pending = []; grants = [] }

module _ (host : Host) (reads : ReadsBack host) where
  call-IsConsented : (c : Call) (db : Db) → IsConsented host db → IsConsented host (call host c db)
  unfolding call
  call-IsConsented (propose p now pending_id) db w =
      elim (propose_grant_outcome host p now pending_id db) [
        | inl (error, e) ↦ rw (call, e) w
        | inr (db', e, change) ↦
            rw (call, e) (Proposed-IsConsented host reads p now pending_id db change w)
      ]
  call-IsConsented (cosign c now) db w = elim (cosign_grant_outcome host c now db) [
    | inl (error, e) ↦ rw (call, e) w
    | inr (db', e, change) ↦ rw (call, e) (Cosigned-IsConsented host reads c now db change w)
  ]
  call-IsConsented (ratify pending_id now) db w =
      elim (ratify_grant_outcome host pending_id now db) [
        | inl (error, e) ↦ rw (call, e) w
        | inr (db', change, e) ↦
            rw (call, e) (Ratified-IsConsented host reads pending_id now db change w)
      ]
  call-IsConsented (revoke req now) db w = elim (revoke_grant_outcome host req now db) [
    | inl (error, e) ↦ rw (call, e) w
    | inr (by_recovery, db', e, change) ↦
        rw (call, e) (Revoked-IsConsented host reads req now by_recovery db change w)
  ]

  no_rows-IsConsented : IsConsented host no_rows
  unfolding IsKeyed
  no_rows-IsConsented = record {
    proposals = tt;
    keyed = λ r i. absurd i;
    granted = tt;
    grant_keyed = λ r i. absurd i;
  }

  calls-IsConsented :
      (cs : List Call) (db : Db) → IsConsented host db → IsConsented host (calls host cs db)
  unfolding calls
  calls-IsConsented [] db w = w
  calls-IsConsented (c ∷ cs) db w = calls-IsConsented cs (call host c db) (call-IsConsented c db w)

  -- After any calls of propose, cosign, ratify and revoke on empty tables, every grant stores the
  -- canonical text of one body that names two different groups, with the first signer the body's
  -- source and the second its target, and both their signatures verify over that body; no two grants
  -- share an id. The one hypothesis is that a canonical text reads back as its body.
  pub grants-IsTwoOfTwo :
      (cs : List Call)
      → All (IsTwoOfTwo host) (calls host cs no_rows).grants
        × IsKeyed (λ g. g.grant_id) (calls host cs no_rows).grants
  grants-IsTwoOfTwo cs =
      let w = calls-IsConsented cs no_rows no_rows-IsConsented in (w.granted, w.grant_keyed)
