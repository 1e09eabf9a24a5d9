-- ===== src/Invites.antt =====
-- server/backend/src/cq_server/invites.py: invitations by a signed token that can be claimed once.
-- `claim_invite` and `revoke_invite` read in one transaction and write in another, so each is the
-- composition of a read and a write, and the writes of several calls may come in any order.
pub mod SingleUse
pub mod Validated
mod Tests
use th_layer_agent.Common.{
  ℕ, ◌+◌, ◌*◌, leb, nat_eq, String, Bool, not, ◌&&◌, ◌||◌, Option, none, some, List, ◌==◌, is_some,
  is_none, if◌then◌else◌,
}
use th_layer_agent.Sql.{select, fetchone, rowcount, update, insert, order_by}
use th_layer_agent.Sql.Keys.{by_key}
use th_layer_agent.Reputation.DailyRoot.{text_le}

-- One row of `invites`.
pub record Invite : Type 0 where
  pub id : ℕ
  pub jti : String
  pub email : String
  pub role : String
  pub target_l2_id : Option String
  pub issued_by : ℕ
  pub issued_at : String
  pub expires_at : String
  pub claimed_at : Option String
  pub claimed_by : Option ℕ
  pub revoked_at : Option String

-- The payload of the token that an invite is sent as.
pub record Claims : Type 0 where
  pub sub : String
  pub role : String
  pub target_l2_id : Option String
  pub iat : ℕ
  pub exp : ℕ
  pub jti : String

-- What `jwt.decode` answers: the payload, its expiry error, or another of its errors.
pub data Decoded : Type 0 where
  payload : Claims → Decoded
  expired_signature : Decoded
  invalid_token : Decoded

-- `datetime`, `jwt` with the server's secret, and the value of CQ_INVITE_TTL_HOURS as `int` reads it
-- (`none` where it is unset, empty or no number). Instants are in microseconds, a text without a
-- timezone is read as UTC, and `none` is the ValueError of `fromisoformat`.
pub record Host : Type 0 where
  pub fromisoformat : String → Option ℕ
  pub isoformat : ℕ → String
  pub encode_jwt : Claims → String
  pub decode_jwt : String → ℕ → Decoded
  pub ttl_hours_env : Option ℕ

abbrev pub default_ttl_hours : ℕ
default_ttl_hours = 72

pub record MintRequest : Type 0 where
  pub email : String
  pub role : String
  pub target_l2_id : Option String
  pub issued_by : ℕ
  pub ttl_hours : Option ℕ

pub record ClaimOutcome : Type 0 where
  pub kind : String
  pub invite : Option Invite

abbrev pub by_id : ℕ → Invite → Bool
by_id id r = nat_eq r.id id

module _ (host : Host) where
  unfoldable pub ttl_hours : ℕ
  ttl_hours = elim host.ttl_hours_env [ none ↦ default_ttl_hours | some hours ↦ hours ]

  unfoldable pub status : ℕ → Invite → String
  status now invite =
      if is_some invite.revoked_at
      then "revoked"
      else if is_some invite.claimed_at
      then "claimed"
      else elim (host.fromisoformat invite.expires_at) [
        | none ↦ "pending"
        | some expires ↦ if leb expires now then "expired" else "pending"
      ]

  -- an enterprise administrator's invite is bound to no group, and every other one to one
  unfoldable pub invite_target : MintRequest → Option String
  invite_target req = if req.role == "enterprise_admin" then none else req.target_l2_id

  unfoldable pub expiry : MintRequest → ℕ → ℕ
  unfolding ttl_hours
  expiry req now = now + (elim req.ttl_hours [ none ↦ ttl_hours | some hours ↦ hours ]) * 3600000000

  unfoldable pub minted_row : MintRequest → ℕ → String → ℕ → Invite
  unfolding invite_target expiry
  minted_row req now jti id = record {
    id = id;
    jti = jti;
    email = req.email;
    role = req.role;
    target_l2_id = invite_target req;
    issued_by = req.issued_by;
    issued_at = host.isoformat now;
    expires_at = host.isoformat (expiry req now);
    claimed_at = none;
    claimed_by = none;
    revoked_at = none;
  }

  unfoldable pub minted_token : MintRequest → ℕ → String → String
  unfolding invite_target expiry
  minted_token req now jti = host.encode_jwt (record {
    sub = req.email;
    role = req.role;
    target_l2_id = invite_target req;
    iat = now;
    exp = expiry req now;
    jti = jti;
  })

  -- `jti` is drawn at random and `id` is what the table assigns; both are unique in the table. `none`
  -- is the ValueError, and the refusal of a taken key.
  unfoldable pub mint_invite :
      MintRequest → ℕ → String → ℕ → List Invite → Option (Invite × String) × List Invite
  unfolding minted_row minted_token
  mint_invite req now jti id rows =
      if not (req.role == "enterprise_admin") && is_none req.target_l2_id
      then (none, rows)
      else if is_some (fetchone (λ r. by_id id r || (r.jti == jti)) rows)
      then (none, rows)
      else (
        some (minted_row req now jti id, minted_token req now jti),
        insert (minted_row req now jti id) rows,
      )

  unfoldable pub get_by_jti : String → List Invite → Option Invite
  get_by_jti jti rows = fetchone (by_key (λ r. r.jti) jti) rows

  unfoldable pub get_by_id : ℕ → List Invite → Option Invite
  get_by_id id rows = fetchone (by_id id) rows

  unfoldable pub validate_invite_jwt : String → ℕ → List Invite → Option Invite
  unfolding get_by_jti status
  validate_invite_jwt token now rows = elim (host.decode_jwt token now) [
    | expired_signature ↦ none
    | invalid_token ↦ none
    | payload claims ↦ if claims.jti == "" then none else elim (get_by_jti claims.jti rows) [
      | none ↦ none
      | some invite ↦ if status now invite == "pending" then some invite else none
    ]
  ]

  -- What `claim_invite` decides before its UPDATE: an outcome, or the invite to claim.
  unfoldable pub claim_read : String → ℕ → List Invite → ClaimOutcome × Option Invite
  unfolding get_by_jti status
  claim_read token now rows = elim (host.decode_jwt token now) [
    | expired_signature ↦ (record { kind = "expired"; invite = none }, none)
    | invalid_token ↦ (record { kind = "not_found"; invite = none }, none)
    | payload claims ↦
        if claims.jti == ""
        then (record { kind = "not_found"; invite = none }, none)
        else elim (get_by_jti claims.jti rows) [
          | none ↦ (record { kind = "not_found"; invite = none }, none)
          | some invite ↦
              if status now invite == "claimed"
              then (record { kind = "already_claimed"; invite = some invite }, none)
              else if status now invite == "revoked"
              then (record { kind = "revoked"; invite = some invite }, none)
              else if status now invite == "expired"
              then (record { kind = "expired"; invite = some invite }, none)
              else (record { kind = "ok"; invite = some invite }, some invite)
        ]
  ]

  -- WHERE id = :id AND claimed_at IS NULL AND revoked_at IS NULL
  abbrev pub unused : ℕ → Invite → Bool
  unused id r = by_id id r && is_none r.claimed_at && is_none r.revoked_at

  abbrev pub claimed_row : ℕ → ℕ → Invite → Invite
  claimed_row user_id now r = record r {
    claimed_at = some (host.isoformat now);
    claimed_by = some user_id;
  }

  -- the outcome of a lost race, from the row as it is read again
  unfoldable pub lost_race : Option Invite → ClaimOutcome
  lost_race none = record { kind = "not_found"; invite = none }
  lost_race (some current) = record {
    kind =
        if is_some current.revoked_at
        then "revoked"
        else if is_some current.claimed_at
        then "already_claimed"
        else "not_found";
    invite = some current;
  }

  -- `refreshed or invite`
  unfoldable pub refreshed : Invite → List Invite → Invite
  unfolding get_by_id
  refreshed invite rows = elim (get_by_id invite.id rows) [ none ↦ invite | some r ↦ r ]

  unfoldable pub claim_write : Invite → ℕ → ℕ → List Invite → ClaimOutcome × List Invite
  unfolding lost_race refreshed
  claim_write invite user_id now rows =
      if nat_eq (rowcount (unused invite.id) rows) 0
      then (lost_race (get_by_id invite.id rows), rows)
      else (let rows' = update (unused invite.id) (claimed_row user_id now) rows in
          (record { kind = "ok"; invite = some (refreshed invite rows') }, rows'))

  -- `now` is the clock at the read and `later` at the write.
  unfoldable pub claim_invite : String → ℕ → ℕ → ℕ → List Invite → ClaimOutcome × List Invite
  unfolding claim_read claim_write
  claim_invite token user_id now later rows =
      let seen = claim_read token now rows in
      elim seen.1 [ none ↦ (seen.0, rows) | some invite ↦ claim_write invite user_id later rows ]

  unfoldable pub list_invites : Option String → ℕ → List Invite → List Invite
  unfolding status
  list_invites wanted now rows =
      let invites = order_by (λ a b. text_le b.issued_at a.issued_at) rows in
      elim wanted [ none ↦ invites | some s ↦ select (λ r. status now r == s) invites ]

  abbrev pub revocable : ℕ → Invite → Bool
  revocable id r = by_id id r && is_none r.revoked_at

  abbrev pub revoked_row : ℕ → Invite → Invite
  revoked_row now r = record r { revoked_at = some (host.isoformat now) }

  unfoldable pub revoke_write : ℕ → ℕ → List Invite → Option Invite × List Invite
  unfolding get_by_id
  revoke_write id now rows =
      let rows' = update (revocable id) (revoked_row now) rows in (get_by_id id rows', rows')

  unfoldable pub revoke_invite : ℕ → ℕ → List Invite → Option Invite × List Invite
  unfolding get_by_id revoke_write
  revoke_invite id now rows = elim (get_by_id id rows) [
    | none ↦ (none, rows)
    | some invite ↦
        if is_some invite.revoked_at then (some invite, rows) else revoke_write id now rows
  ]
