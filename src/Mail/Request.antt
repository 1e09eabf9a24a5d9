-- ===== src/Mail/Request.antt =====
-- routes.py of the mail service: the body of a request, as its model accepts it, and who the sender is.
use th_layer_agent.Common.{
  ℕ, String, Bool, true, ◌&&◌, ◌||◌, not, Option, none, some, ◌==◌, if◌then◌else◌, leb,
}
use th_layer_agent.Common.Splits.{has_char, starts_with_char, ends_with_char, len}

pub data Persona : Type 0 where
  invites : Persona
  auth : Persona
  notifications : Persona

-- The fields of the JSON, before the model's constraints.
pub record Fields : Type 0 where
  pub from_persona : String
  pub to : String
  pub subject : String
  pub text : String
  pub html : Option String
  pub category : String
  pub audit_ref : Option String

pub record SendRequest : Type 0 where
  pub from_persona : Persona
  pub to : String
  pub subject : String
  pub text : String
  pub html : Option String
  pub category : String
  pub audit_ref : Option String

unfoldable pub persona_of : String → Option Persona
persona_of name =
    if name == "invites"
    then some invites
    else if name == "auth"
    then some auth
    else if name == "notifications"
    then some notifications
    else none

abbrev pub sender_of : Persona → String
sender_of invites = "invites@8th-layer.ai"
sender_of auth = "auth@8th-layer.ai"
sender_of notifications = "notifications@8th-layer.ai"

unfoldable pub is_category : String → Bool
is_category category =
    (category == "invite_magic_link")
    || (category == "password_reset")
    || (category == "two_factor")
    || (category == "account_event")
    || (category == "security_alert")

abbrev pub within : ℕ → ℕ → String → Bool
within low high s = leb low (len s) && leb (len s) high

abbrev pub ref_fits : Option String → Bool
ref_fits none = true
ref_fits (some ref) = leb (len ref) 128

module _ (strip lower : String → String) where
  -- `none` is the ValueError; 64 is the code of `@`.
  unfoldable pub lower_to : String → Option String
  lower_to value =
      let address = lower (strip value) in
      if not (has_char 64 address) || starts_with_char 64 address || ends_with_char 64 address
      then none
      else some address

  -- The constraints of the model's fields; `none` is its validation error.
  unfoldable pub validate : Fields → Option SendRequest
  unfolding persona_of is_category lower_to
  validate f =
      let fits =
        within 3 320 f.to
        && within 1 998 f.subject
        && leb 1 (len f.text)
        && is_category f.category
        && ref_fits f.audit_ref in
      elim (persona_of f.from_persona) [
        | none ↦ none
        | some persona ↦ elim (lower_to f.to) [
          | none ↦ none
          | some address ↦
              if fits
              then some (record {
                from_persona = persona;
                to = address;
                subject = f.subject;
                text = f.text;
                html = f.html;
                category = f.category;
                audit_ref = f.audit_ref;
              })
              else none
        ]
      ]
