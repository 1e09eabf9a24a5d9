-- ===== src/Mail/Tests.antt =====
-- The mail service at concrete requests.
use th_layer_agent.Common.{
  ℕ, ◌≡◌, refl, String, str_append, if◌then◌else◌, Option, none, some, List, [], ◌∷◌, ◌==◌, In, inl,
  inr, ◌⊎◌, ◌+◌, if◌then◌else◌, arith,
}
use th_layer_agent.Common.Exec.{ok}
use th_layer_agent.Common.Splits.{starts_with, is_ascii, ends_with_char, len}
use th_layer_agent.Sql.{fetchone, delete}
use th_layer_agent.Mail.Accepted.{Signed}
use th_layer_agent.Mail.Allowed.{Allowed, calls-Allowed}
use th_layer_agent.Mail.Blocked.{Rejects}
use th_layer_agent.Mail.Branches.{Read, read}
use th_layer_agent.Mail.Idempotency.{get_answer}
use th_layer_agent.Mail.Repeat.{repeat-answer, serve_all}
use th_layer_agent.Mail.Latest.{Use, ask, keep, clean, InOrder, promised, served, cache-promised}
use th_layer_agent.Mail.Request.{Fields, SendRequest, notifications}
use th_layer_agent.Mail.Send.{
  Setting, Call, Service, Tables, Mail, authenticate, parse, derive_idempotency_key,
  send_transactional, answer_202,
}
use th_layer_agent.Mail.Silenced.{After, rejected-unwritten}
use th_layer_agent.Mail.Suppression.{
  SuppressionEntry, Notification, bounce, handle_sns_message, handle_lambda_event,
}
use th_layer_agent.Mail.Tenancy.{Recipient}

abbrev note : Fields
note = record {
  from_persona = "notifications";
  to = "ann@acme.com";
  subject = "hello";
  text = "hi";
  html = none;
  category = "account_event";
  audit_ref = some "ref1";
}

-- the bodies are texts, and only `note` is JSON of the model's shape
abbrev setting : Setting String
setting = record {
  hexdigest = λ key body. str_append key body;
  loads = λ body. if body == "note" then some note else none;
  strip = λ s. s;
  lower = λ s. s;
  sql_lower = λ s. s;
  resolver = λ l2_id. if l2_id == "acme/eng" then some "k1" else none;
  ttl = 60;
}

abbrev ann : Recipient
ann = record { id = 1; email = some "ann@acme.com"; enterprise_id = "acme"; group_id = "eng" }

abbrev tables : Tables
tables = record { users = ann ∷ []; invites = []; suppressions = [] }

abbrev call : ℕ → Call String
call now = record {
  l2_id = some "acme/eng";
  signature = some "sha256=k1note";
  idempotency_key = none;
  body = "note";
  asked_at = now;
  kept_at = now + 1;
  reply = some (some "m1");
  handle = "tx_1";
}

abbrev empty : Service
empty = record { entries = []; calls = [] }

abbrev who : String × String × String
who = ("acme/eng", "acme", "eng")

abbrev request : SendRequest
request = record {
  from_persona = notifications;
  to = "ann@acme.com";
  subject = "hello";
  text = "hi";
  html = none;
  category = "account_event";
  audit_ref = some "ref1";
}

abbrev mail : Mail
mail = record {
  source = "notifications@8th-layer.ai";
  to = "ann@acme.com";
  subject = "hello";
  text = "hi";
  html = none;
}

first_sent : send_transactional setting tables (call 5) empty ≡ (
  ok (answer_202 "tx_1" (some "m1")),
  record {
    entries =
        record { key = "acme/eng:ref:ref1"; at = 6; answer = answer_202 "tx_1" (some "m1") } ∷ [];
    calls = mail ∷ [];
  },
)
unfolding send_transactional starts_with is_ascii ends_with_char len fetchone delete
first_sent = refl

call-Read : (now : ℕ) → Read setting (call now) who request
unfolding Signed authenticate parse starts_with is_ascii ends_with_char len
call-Read now = read (refl, refl, ("k1", refl, refl)) (λ s. refl) refl

repeat-answer_example :
    send_transactional setting tables (call 9) (
      serve_all setting
        ((tables, call 7) ∷ [])
        (send_transactional setting tables (call 5) empty).1)
    ≡ (
      ok (answer_202 "tx_1" (some "m1")),
      serve_all setting
          ((tables, call 7) ∷ [])
          (send_transactional setting tables (call 5) empty).1,
    )
unfolding send_transactional derive_idempotency_key get_answer fetchone starts_with is_ascii
    ends_with_char len
repeat-answer_example =
    repeat-answer setting "acme/eng:ref:ref1" (answer_202 "tx_1" (some "m1")) tables (call 5) empty
      who request ((tables, call 7) ∷ []) tables (call 9) who request (call-Read 5) refl refl
      (inl refl) (refl, tt) (call-Read 9) refl refl

calls-Allowed_example :
    In mail []
    ⊎ ((x : Tables × Call String) × In x ((tables, call 5) ∷ []) × Allowed setting x.0 x.1 mail)
unfolding serve_all send_transactional fetchone delete starts_with is_ascii ends_with_char len
calls-Allowed_example = calls-Allowed setting ((tables, call 5) ∷ []) empty mail (inl refl)

-- the one notification that the texts stand for
abbrev loads : String → Option Notification
loads message =
    if message == "bounced"
    then some (bounce "Permanent" "2026-01-01" (some "bob@acme.com" ∷ []))
    else none

abbrev day_of : String → String
day_of timestamp = timestamp

abbrev after_bounce : List SuppressionEntry
unfolding handle_sns_message
after_bounce = (handle_sns_message setting.lower day_of loads "bounced" none "now" []).1

abbrev later_tables : Tables
later_tables = record { users = ann ∷ []; invites = []; suppressions = after_bounce }

abbrev to_bob : Mail
to_bob = record mail { to = "bob@acme.com" }

abbrev had_bob : Service
had_bob = record { entries = []; calls = to_bob ∷ [] }

rejected-unwritten_example : In to_bob (to_bob ∷ [])
unfolding serve_all send_transactional After handle_sns_message handle_lambda_event Rejects fetchone
    delete starts_with is_ascii ends_with_char len
rejected-unwritten_example =
    rejected-unwritten setting day_of loads "bob@acme.com" "bounced"
      (bounce "Permanent" "2026-01-01" (some "bob@acme.com" ∷ [])) none "now" []
      ((later_tables, call 5) ∷ []) had_bob to_bob refl refl (refl, inl refl)
      (([], ("now", refl)), tt) (inr (inl refl)) refl

-- two answers under one key and one under another, a question in time and one too late
abbrev uses : List (ℕ × Use String)
uses =
    (1, keep "a" "x")
    ∷ (2, keep "b" "y")
    ∷ (3, keep "a" "z")
    ∷ (8, clean)
    ∷ (9, ask "a")
    ∷ (14, ask "a")
    ∷ (15, ask "b")
    ∷ []

in_order : InOrder 0 uses
unfolding InOrder
in_order = (
  omega arith,
  (omega arith, (omega arith, (omega arith, (omega arith, (omega arith, (omega arith, tt)))))),
)

promised_run : promised 10 uses (λ k. none) ≡ some "z" ∷ none ∷ none ∷ []
unfolding promised
promised_run = refl

cache-promised_example : served 10 uses [] ≡ promised 10 uses (λ k. none)
cache-promised_example = cache-promised 10 uses in_order
