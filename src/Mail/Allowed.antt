-- ===== src/Mail/Allowed.antt =====
-- routes.py of the mail service: which mails it hands to the provider.
use th_layer_agent.Common.{
  ℕ, String, true, ◌≡◌, refl, sym, ap, ◌∙◌, subst, Option, none, some, List, [], ◌∷◌, In, inl, inr,
  ◌⊎◌, All, is_some, All-In, arith,
}
use th_layer_agent.Common.Exec.{Result}
use th_layer_agent.Mail.Accepted.{Signed}
use th_layer_agent.Mail.Branches.{
  Delivery, foreign, stopped, failed, accepted, Served, refused, repeated, handled, Read, read,
  send-Served, looked_up, called, MayWrite,
}
use th_layer_agent.Sql.{fetchone}
use th_layer_agent.Sql.Keys.{by_key}
use th_layer_agent.Mail.Suppression.{check_suppression}
use th_layer_agent.Mail.Repeat.{serve_all}
use th_layer_agent.Mail.Request.{SendRequest}
use th_layer_agent.Mail.Send.{
  Setting, Call, Service, Tables, Answer, Failure, Mail, mail_of, remember, parse,
  send_transactional, answer_409, answer_202,
}

remember-calls :
    (key : Option String) (answer : Answer) (now : ℕ) (s : Service)
    → (remember key answer now s).calls ≡ s.calls
unfolding remember
remember-calls none answer now s = refl
remember-calls (some key) answer now s = refl

looked_up-calls :
    (ttl : ℕ) (key : Option String) (now : ℕ) (s : Service)
    → (looked_up ttl key now s).calls ≡ s.calls
looked_up-calls ttl none now s = refl
looked_up-calls ttl (some key) now s = refl

module _ {Body : Type 0} (env : Setting Body) where
  -- A signed request whose body asks for the mail, to a recipient it may write to.
  unfoldable pub Allowed : Tables → Call Body → Mail → Type 0
  Allowed tables c m =
      (who : String × String × String) × ((p : SendRequest) × Signed env c who
        × (parse env c.body ≡ some p)
        × MayWrite env tables c who p
        × (mail_of p ≡ m))

  -- a request adds no call, or one of an allowed mail
  unfoldable Adds : Tables → Call Body → List Mail → List Mail → Type 0
  Adds tables c before after =
      (after ≡ before) ⊎ ((m : Mail) × Allowed tables c m × (after ≡ m ∷ before))

  Delivery-Adds :
      (tables : Tables) (c : Call Body) (who : String × String × String) (p : SendRequest)
      (key : Option String) (s : Service) {r : Result Failure Answer × Service}
      → Read env c who p
      → Delivery env tables c who p key s r
      → Adds tables c s.calls (r.1).calls
  unfolding Adds Allowed
  Delivery-Adds tables c who p key s ready foreign = inl refl
  Delivery-Adds tables c who p key s ready (stopped row found) =
      inl (remember-calls key (answer_409 row.reason) c.kept_at s)
  Delivery-Adds tables c who p key s (read signed runs e) (failed may) =
      inr (mail_of p, (who, (p, signed, e, may, refl)), refl)
  Delivery-Adds tables c who p key s (read signed runs e) (accepted may message_id replied) = inr (
    mail_of p,
    (who, (p, signed, e, may, refl)),
    remember-calls key (answer_202 c.handle message_id) c.kept_at (called (mail_of p) s),
  )

  Served-Adds :
      (tables : Tables) (c : Call Body) (s : Service) {r : Result Failure Answer × Service}
      → Served env tables c s r
      → Adds tables c s.calls (r.1).calls
  unfolding Adds
  Served-Adds tables c s (refused f plain unread) = inl refl
  Served-Adds tables c s (repeated who p ready key at_key answer hit) = inl refl
  Served-Adds tables c s (handled who p ready key at_key miss r d) =
      subst (λ x. Adds tables c x (r.1).calls) (looked_up-calls env.ttl key c.asked_at s)
        (Delivery-Adds tables c who p key (looked_up env.ttl key c.asked_at s) ready d)

  -- Whatever is requested, each mail handed to the provider was handed to it before, or one of the
  -- requests asked for it: that request was signed with the key of its group and its body accepted,
  -- the recipient is one the group may write to, and the tables at that time did not suppress it.
  pub calls-Allowed :
      (requests : List (Tables × Call Body)) (s : Service) (m : Mail)
      → In m (serve_all env requests s).calls
      → In m s.calls ⊎ ((x : Tables × Call Body) × In x requests × Allowed x.0 x.1 m)
  unfolding serve_all Adds
  calls-Allowed [] s m i = inl i
  calls-Allowed ((tables, c) ∷ requests) s m i =
      let next = send_transactional env tables c s in
      elim (calls-Allowed requests next.1 m i) [
        | inr (x, j, allowed) ↦ inr (x, inr j, allowed)
        | inl j ↦ elim (Served-Adds tables c s (send-Served env tables c s)) [
          | inl same ↦ inl (subst (In m) same j)
          | inr (n, allowed, more) ↦ elim (subst (In m) more j) [
            | inr k ↦ inl k
            | inl here ↦ inr ((tables, c), inl refl, subst (Allowed tables c) here allowed)
          ]
        ]
      ]

  -- A mail that is handed on goes to no address that the tables suppress at that time.
  pub calls-unsuppressed :
      (a : String) (requests : List (Tables × Call Body)) (s : Service) (m : Mail)
      → All (λ x. is_some (check_suppression env.lower a (x.0).suppressions) ≡ true) requests
      → In m (serve_all env requests s).calls
      → env.lower m.to ≡ env.lower a
      → In m s.calls
  unfolding Allowed MayWrite check_suppression mail_of
  calls-unsuppressed a requests s m suppressed i same = elim (calls-Allowed requests s m i) [
    | inl old ↦ old
    | inr (x, j, (who, (p, signed, e, may, made))) ↦
        let listed =
          All-In (λ y. is_some (check_suppression env.lower a (y.0).suppressions) ≡ true) requests
            suppressed j in
        let to : p.to ≡ m.to = ap (λ n. n.to) made in
        let clear =
          subst (λ t. is_some (fetchone (by_key (λ r. r.address) t) (x.0).suppressions) ≡ true)
            (sym (ap env.lower to ∙ same)) listed in
        absurd (ground (arith, may.1))
  ]
