-- ===== src/Mail/Tenancy.antt =====
-- tenancy.py of the mail service: to whom a group may write.
use th_layer_agent.Common.{
  ℕ, String, Bool, true, false, ◌&&◌, ◌||◌, Option, none, some, List, ◌==◌, nat_eq, is_some,
  is_none, if◌then◌else◌,
}
use th_layer_agent.Sql.{fetchone}
use th_layer_agent.Invites.{Invite}

-- One row of `users`, in the columns that are read.
pub record Recipient : Type 0 where
  pub id : ℕ
  pub email : Option String
  pub enterprise_id : String
  pub group_id : String

unfoldable pub is_invite_category : String → Bool
is_invite_category category =
    (category == "invite_magic_link")
    || (category == "password_reset")
    || (category == "two_factor")

unfoldable pub is_user_only_category : String → Bool
is_user_only_category category = (category == "account_event") || (category == "security_alert")

-- `sql_lower` is SQLite's LOWER and `lower` Python's.
module _ (sql_lower lower : String → String) where
  -- WHERE LOWER(email) = :e, which no NULL meets
  abbrev pub has_email : String → Recipient → Bool
  has_email address u = elim u.email [ none ↦ false | some email ↦ sql_lower email == address ]

  abbrev pub of_tenant : String → String → Recipient → Bool
  of_tenant enterprise_id group_id u =
      (u.enterprise_id == enterprise_id) && (u.group_id == group_id)

  -- an open invite to the address, issued by a user of the tenant
  unfoldable pub invited : String → String → String → List Recipient → Invite → Bool
  invited address enterprise_id group_id users i =
      (sql_lower i.email == address)
      && is_some
          (fetchone (λ u. nat_eq u.id i.issued_by && of_tenant enterprise_id group_id u) users)
      && is_none i.claimed_at
      && is_none i.revoked_at

  unfoldable pub enforce_tenancy :
      String → String → String → String → List Recipient → List Invite → Bool
  unfolding is_invite_category is_user_only_category invited
  enforce_tenancy enterprise_id group_id to category users invites =
      let address = lower to in
      let by_invite =
        if is_user_only_category category
        then false
        else if is_invite_category category
        then is_some (fetchone (invited address enterprise_id group_id users) invites)
        else false in
      elim (fetchone (has_email address) users) [
        | none ↦ by_invite
        | some u ↦ if of_tenant enterprise_id group_id u then true else by_invite
      ]
