-- ===== src/Mail/Send.antt =====
-- routes.py of the mail service: the handler that sends one mail, or answers why not.
use th_layer_agent.Common.{given, ℕ, String, str_append, not, Option, none, some, List, ◌∷◌}
use th_layer_agent.Common.Exec.{Exec, ok, pure, raise, get, put, raise_if, some_or, ◌>>=◌, ◌>>◌}
use th_layer_agent.Common.Splits.{has_char, split_once}
use th_layer_agent.Invites.{Invite}
use th_layer_agent.Mail.Auth.{verify_hmac_signature}
use th_layer_agent.Mail.Idempotency.{Kept, get_answer, put_answer}
use th_layer_agent.Mail.Request.{Fields, SendRequest, validate, sender_of}
use th_layer_agent.Mail.Suppression.{SuppressionEntry, check_suppression}
use th_layer_agent.Mail.Tenancy.{Recipient, enforce_tenancy}

-- The two bodies that are kept for a repeated request.
pub data Content : Type 0 where
  sent : String → Option String → Content
  blocked : String → Content

pub record Answer : Type 0 where
  pub status : ℕ
  pub content : Content

-- What the caller gets instead of an answer; `uncaught` is an exception the handler does not catch.
pub data Failure : Type 0 where
  http : ℕ → String → Failure
  suppressed : String → Failure
  uncaught : Failure

-- One call of the provider.
pub record Mail : Type 0 where
  pub source : String
  pub to : String
  pub subject : String
  pub text : String
  pub html : Option String

-- What the service keeps, and the calls it has made, latest first.
pub record Service : Type 0 where
  pub entries : List (Kept Answer)
  pub calls : List Mail

-- The tables, as they are during the request.
pub record Tables : Type 0 where
  pub users : List Recipient
  pub invites : List Invite
  pub suppressions : List SuppressionEntry

-- The request's headers and body, the clock at its two readings, the provider's reply (`none` is an
-- exception, `some none` a reply without a message id) and the fresh handle.
pub record Call (Body : Type 0) : Type 0 where
  pub l2_id : Option String
  pub signature : Option String
  pub idempotency_key : Option String
  pub body : Body
  pub asked_at : ℕ
  pub kept_at : ℕ
  pub reply : Option (Option String)
  pub handle : String

unfoldable pub derive_idempotency_key : Option String → String → Option String → Option String
derive_idempotency_key header_key l2_id audit_ref = elim (given header_key) [
  | some key ↦ some (str_append l2_id (str_append ":hdr:" key))
  | none ↦ elim (given audit_ref) [
    | some ref ↦ some (str_append l2_id (str_append ":ref:" ref))
    | none ↦ none
  ]
]

-- `dispatcher.send`: an empty HTML part is left out.
unfoldable pub mail_of : SendRequest → Mail
mail_of p = record {
  source = sender_of p.from_persona;
  to = p.to;
  subject = p.subject;
  text = p.text;
  html = given p.html;
}

abbrev pub answer_409 : String → Answer
answer_409 reason = record { status = 409; content = blocked reason }

abbrev pub answer_202 : String → Option String → Answer
answer_202 handle message_id = record { status = 202; content = sent handle message_id }

unfoldable pub remember : Option String → Answer → ℕ → Service → Service
unfolding put_answer
remember none answer now s = s
remember (some key) answer now s = record {
  entries = put_answer key answer now s.entries;
  calls = s.calls;
}

-- What the handler is given: the functions of the libraries, the keys, and the time to live.
pub record Setting (Body : Type 0) : Type 0 where
  pub hexdigest : String → Body → String
  pub loads : Body → Option Fields
  pub strip : String → String
  pub lower : String → String
  pub sql_lower : String → String
  pub resolver : String → Option String
  pub ttl : ℕ

module _ {Body : Type 0} (env : Setting Body) where
  -- the caller's group, where the headers and the signature are accepted
  unfoldable pub authenticate : Call Body → Exec Failure Service (String × String × String)
  unfolding verify_hmac_signature has_char split_once
  authenticate c = do
    l2_id ← some_or (given c.l2_id) (http 401 "missing X-8L-L2-Id header")
    raise_if (not (has_char 47 l2_id)) (http 401 "malformed X-8L-L2-Id (expected enterprise/group)")
    accepted ←
        some_or (verify_hmac_signature env.hexdigest env.resolver c.body (given c.signature) l2_id)
          uncaught
    raise_if (not accepted) (http 401 "invalid signature")
    tenant ← some_or (split_once 47 l2_id) uncaught
    pure (l2_id, tenant.0, tenant.1)

  -- the mail's way to the provider, after the request is accepted and is not a repeated one
  unfoldable pub deliver :
      Tables
      → Call Body
      → String × String × String
      → SendRequest
      → Option String
      → Exec Failure Service Answer
  unfolding enforce_tenancy check_suppression mail_of remember
  deliver tables c who p key = do
    raise_if
        (not (
          enforce_tenancy env.sql_lower env.lower who.1 who.2 p.to p.category tables.users
            tables.invites))
        (http 403 "recipient outside caller tenancy")
    s ← get
    elim (check_suppression env.lower p.to tables.suppressions) [
      | some row ↦ (do
        put (remember key (answer_409 row.reason) c.kept_at s)
        raise (suppressed row.reason))
      | none ↦ (do
        put (record { entries = s.entries; calls = mail_of p ∷ s.calls })
        message_id ← some_or c.reply (http 502 "downstream SES error")
        called ← get
        put (remember key (answer_202 c.handle message_id) c.kept_at called)
        pure (answer_202 c.handle message_id))
    ]

  -- the kept answer of a key, if there is a key
  unfoldable pub replayed : Option String → ℕ → Exec Failure Service (Option Answer)
  unfolding get_answer
  replayed none now s = (ok none, s)
  replayed (some key) now s =
      let found = get_answer env.ttl key now s.entries in
      (ok found.0, record { entries = found.1; calls = s.calls })

  unfoldable pub parse : Body → Option SendRequest
  unfolding validate
  parse body = elim (env.loads body) [
    | none ↦ none
    | some fields ↦ validate env.strip env.lower fields
  ]

  unfoldable pub send_transactional : Tables → Call Body → Exec Failure Service Answer
  unfolding authenticate deliver replayed parse derive_idempotency_key
  send_transactional tables c = do
    who ← authenticate c
    p ← some_or (parse c.body) (http 422 "invalid request body")
    let key = derive_idempotency_key c.idempotency_key who.0 p.audit_ref
    cached ← replayed key c.asked_at
    elim cached [ some answer ↦ pure answer | none ↦ deliver tables c who p key ]
