-- ===== src/Mail/Branches.antt =====
-- The branches of the handler of routes.py, each with what the service keeps and calls on it.
use th_layer_agent.Common.{
  ℕ, String, true, ◌≡◌, refl, Option, none, some, ◌∷◌, Bool-cases, Option-cases, inl, inr, subst,
  sym, ap, ◌∙◌,
}
use th_layer_agent.Common.Exec.{Result, ok, err, ok≢err}
use th_layer_agent.Mail.Accepted.{Signed, authenticate-cases, failure_answer}
use th_layer_agent.Mail.Idempotency.{get_answer}
use th_layer_agent.Mail.Request.{SendRequest}
use th_layer_agent.Mail.Send.{
  Setting, Call, Service, Tables, Answer, Failure, http, suppressed, Mail, mail_of, remember,
  answer_409, answer_202, parse, deliver, replayed, derive_idempotency_key, send_transactional,
  authenticate,
}
use th_layer_agent.Mail.Suppression.{SuppressionEntry, check_suppression}
use th_layer_agent.Mail.Tenancy.{enforce_tenancy}

-- the service after a lookup of a kept answer
abbrev pub looked_up : ℕ → Option String → ℕ → Service → Service
looked_up ttl none now s = s
looked_up ttl (some key) now s = record {
  entries = (get_answer ttl key now s.entries).1;
  calls = s.calls;
}

abbrev pub called : Mail → Service → Service
called m s = record { entries = s.entries; calls = m ∷ s.calls }

module _ {Body : Type 0} (env : Setting Body) (tables : Tables) (c : Call Body) where
  -- the recipient may be written to by the group, and nothing suppresses it
  unfoldable pub MayWrite : String × String × String → SendRequest → Type 0
  MayWrite who p =
      (enforce_tenancy env.sql_lower env.lower who.1 who.2 p.to p.category tables.users
          tables.invites
        ≡ true)
      × (check_suppression env.lower p.to tables.suppressions ≡ none)

  pub data Delivery (who : String × String × String) (p : SendRequest) (key : Option String)
      (s : Service) : Result Failure Answer × Service → Type 0 where
    foreign : Delivery who p key s (err (http 403 "recipient outside caller tenancy"), s)
    stopped :
        (row : SuppressionEntry)
        → check_suppression env.lower p.to tables.suppressions ≡ some row
        → Delivery who p key s
            (err (suppressed row.reason), remember key (answer_409 row.reason) c.kept_at s)
    failed :
        MayWrite who p
        → Delivery who p key s (err (http 502 "downstream SES error"), called (mail_of p) s)
    accepted :
        MayWrite who p
        → (message_id : Option String) → c.reply ≡ some message_id
        → Delivery who p key s (
          ok (answer_202 c.handle message_id),
          remember key (answer_202 c.handle message_id) c.kept_at (called (mail_of p) s),
        )

  deliver-Delivery :
      (who : String × String × String) (p : SendRequest) (key : Option String) (s : Service)
      → Delivery who p key s (deliver env tables c who p key s)
  unfolding MayWrite deliver
  deliver-Delivery who p key s =
      elim (Bool-cases (
        enforce_tenancy env.sql_lower env.lower who.1 who.2 p.to p.category tables.users
          tables.invites)) [
            | inr f ↦ rw f foreign
            | inl t ↦ elim (Option-cases (check_suppression env.lower p.to tables.suppressions)) [
              | inr (row, e) ↦ rw (t, e) (stopped row e)
              | inl n ↦ elim (Option-cases c.reply) [
                | inl e ↦ rw (t, n, e) (failed (t, n))
                | inr (message_id, e) ↦ simp (t, n, e) (accepted (t, n) message_id e)
              ]
            ]
          ]

module _ {Body : Type 0} (env : Setting Body) where
  -- no answer is kept for the request's key
  unfoldable pub Unanswered : Option String → ℕ → Service → Type 0
  Unanswered none now s = Unit {0}
  Unanswered (some key) now s = (get_answer env.ttl key now s.entries).0 ≡ none

  abbrev pub key_of : Call Body → String × String × String → SendRequest → Option String
  key_of c who p = derive_idempotency_key c.idempotency_key who.0 p.audit_ref

  -- the request is signed for the group and its body is accepted
  pub data Read (c : Call Body) (who : String × String × String) (p : SendRequest) : Type 0 where
    read :
        Signed env c who
        → ((s : Service) → authenticate env c s ≡ (ok who, s))
        → parse env c.body ≡ some p
        → Read c who p

  Read-runs :
      (c : Call Body) (who : String × String × String) (p : SendRequest)
      → Read c who p
      → (s : Service) (f : Failure) → authenticate env c s ≡ (err f, s)
      → ⊥
  Read-runs c who p (read signed runs e) s f bad = ok≢err (ap (λ x. x.0) (sym (runs s) ∙ bad))

  Read-parse :
      (c : Call Body) (who : String × String × String) (p : SendRequest)
      → Read c who p
      → parse env c.body ≡ none
      → ⊥
  Read-parse c who p (read signed runs e) n = cc

  pub data Served (tables : Tables) (c : Call Body) (s : Service)
      : Result Failure Answer × Service → Type 0 where
    refused :
        (f : Failure)
        → failure_answer f ≡ none
        → ((who : String × String × String) (p : SendRequest) → Read c who p → ⊥)
        → Served tables c s (err f, s)
    repeated :
        (who : String × String × String) (p : SendRequest)
        → Read c who p
        → (key : String) → key_of c who p ≡ some key
        → (answer : Answer) → (get_answer env.ttl key c.asked_at s.entries).0 ≡ some answer
        → Served tables c s (ok answer, looked_up env.ttl (some key) c.asked_at s)
    handled :
        (who : String × String × String) (p : SendRequest)
        → Read c who p
        → (key : Option String) → key_of c who p ≡ key
        → Unanswered key c.asked_at s
        → (r : Result Failure Answer × Service)
        → Delivery env tables c who p key (looked_up env.ttl key c.asked_at s) r
        → Served tables c s r

  pub send-Served :
      (tables : Tables) (c : Call Body) (s : Service)
      → Served tables c s (send_transactional env tables c s)
  unfolding send_transactional replayed Unanswered failure_answer
  send-Served tables c s = elim (authenticate-cases env c) [
    | inr (f, plain, runs) ↦
        rw (runs s) (refused f plain (λ who p ready. Read-runs c who p ready s f (runs s)))
    | inl (who, signed, runs) ↦ elim (Option-cases (parse env c.body)) [
      | inl n ↦ rw (runs s) (
          simp n (
            refused (http 422 "invalid request body") refl
              (λ who' p ready. Read-parse c who' p ready n)))
      | inr (p, e) ↦ elim (Option-cases (key_of c who p)) [
        | inl k ↦
            let same : send_transactional env tables c s ≡ deliver env tables c who p none s =
              rw (runs s) (simp (e, k) (ap (λ x. deliver env tables c who p x s) k)) in
            subst (Served tables c s) (sym same) (
              handled who p (read signed runs e) none k tt (deliver env tables c who p none s)
                (deliver-Delivery env tables c who p none s))
        | inr (key, k) ↦ elim (Option-cases ((get_answer env.ttl key c.asked_at s.entries).0)) [
          | inl miss ↦
              let after : Service = looked_up env.ttl (some key) c.asked_at s in
              let same : send_transactional env tables c s
                  ≡ deliver env tables c who p (some key) after =
                rw (runs s) (simp (e, k, miss) (ap (λ x. deliver env tables c who p x after) k)) in
              subst (Served tables c s) (sym same) (
                handled who p (read signed runs e) (some key) k miss
                  (deliver env tables c who p (some key) after)
                  (deliver-Delivery env tables c who p (some key) after))
          | inr (answer, hit) ↦
              let same : send_transactional env tables c s
                  ≡ (ok answer, looked_up env.ttl (some key) c.asked_at s) =
                rw (runs s) (simp (e, k, hit) refl) in
              subst (Served tables c s) (sym same)
                (repeated who p (read signed runs e) key k answer hit)
        ]
      ]
    ]
  ]
