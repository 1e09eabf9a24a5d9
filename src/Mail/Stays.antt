-- ===== src/Mail/Stays.antt =====
-- A kept answer stays through a call that comes before it is stale.
use th_layer_agent.Common.{
  ℕ, ◌+◌, ltb, String, false, ◌≡◌, refl, sym, ap, ◌∙◌, subst, Option, none, some, ◌==◌, Bool-cases,
  inl, inr, some_inj, str_eq→eq,
}
use th_layer_agent.Common.Exec.{Result}
use th_layer_agent.Mail.Branches.{
  Delivery, foreign, stopped, failed, accepted, Served, refused, repeated, handled, looked_up,
  called, Unanswered,
}
use th_layer_agent.Mail.Idempotency.{Kept, get_answer}
use th_layer_agent.Mail.Kept.{Holds, Holds-put, Holds-get, get-Holds}
use th_layer_agent.Mail.Request.{SendRequest}
use th_layer_agent.Mail.Send.{
  Setting, Call, Service, Tables, Answer, Failure, remember, answer_409, answer_202, mail_of,
}

Holds-remember_other :
    (k : String) (e : Kept Answer) (key : Option String) (answer : Answer) (now : ℕ) (s : Service)
    → Holds k e s.entries
    → ((other : String) → key ≡ some other → k == other ≡ false)
    → Holds k e (remember key answer now s).entries
unfolding remember
Holds-remember_other k e none answer now s h n = h
Holds-remember_other k e (some other) answer now s h n =
    Holds-put k other e answer now s.entries h (n other refl)

module _ (ttl : ℕ) (k : String) (e : Kept Answer) (full : k == "" ≡ false) where
  Holds-looked_up :
      (key : Option String) (now : ℕ) (s : Service)
      → ltb (e.at + ttl) now ≡ false
      → Holds k e s.entries
      → Holds k e (looked_up ttl key now s).entries
  Holds-looked_up none now s fresh h = h
  Holds-looked_up (some other) now s fresh h = elim (Bool-cases (k == other)) [
    | inr differ ↦ Holds-get ttl k other e now s.entries h differ
    | inl same ↦
        let found = get-Holds ttl k e now s.entries h full fresh in
        subst (λ o. Holds k e (get_answer ttl o now s.entries).1) (str_eq→eq k other same)
          (subst (Holds k e) (sym (ap (λ x. x.1) found)) h)
  ]

  -- a key for which nothing is kept is another key
  miss-other :
      (other : String) (now : ℕ) (s : Service)
      → ltb (e.at + ttl) now ≡ false
      → Holds k e s.entries
      → (get_answer ttl other now s.entries).0 ≡ none
      → k == other ≡ false
  miss-other other now s fresh h miss = elim (Bool-cases (k == other)) [
    | inr differ ↦ differ
    | inl same ↦
        let found = get-Holds ttl k e now s.entries h full fresh in
        let missed =
          subst (λ o. (get_answer ttl o now s.entries).0 ≡ none) (sym (str_eq→eq k other same))
            miss in
        let clash : some e.answer ≡ none = sym (ap (λ x. x.0) found) ∙ missed in absurd cc
  ]

module _ {Body : Type 0} (env : Setting Body) (k : String) (e : Kept Answer) where
  Delivery-Holds :
      (tables : Tables) (c : Call Body) (who : String × String × String) (p : SendRequest)
      (key : Option String) (s : Service) {r : Result Failure Answer × Service}
      → ((other : String) → key ≡ some other → k == other ≡ false)
      → Delivery env tables c who p key s r
      → Holds k e s.entries
      → Holds k e (r.1).entries
  Delivery-Holds tables c who p key s n foreign h = h
  Delivery-Holds tables c who p key s n (stopped row found) h =
      Holds-remember_other k e key (answer_409 row.reason) c.kept_at s h n
  Delivery-Holds tables c who p key s n (failed may) h = h
  Delivery-Holds tables c who p key s n (accepted may message_id replied) h =
      Holds-remember_other k e key (answer_202 c.handle message_id) c.kept_at (called (mail_of p) s)
        h n

  -- a call at a time when an entry is not yet stale leaves the entry
  pub Served-Holds :
      (tables : Tables) (c : Call Body) (s : Service) {r : Result Failure Answer × Service}
      → k == "" ≡ false
      → ltb (e.at + env.ttl) c.asked_at ≡ false
      → Served env tables c s r
      → Holds k e s.entries
      → Holds k e (r.1).entries
  unfolding Unanswered
  Served-Holds tables c s full fresh (refused f plain unread) h = h
  Served-Holds tables c s full fresh (repeated who p ready key at_key answer hit) h =
      Holds-looked_up env.ttl k e full (some key) c.asked_at s fresh h
  Served-Holds tables c s full fresh (handled who p ready none at_key miss r d) h =
      Delivery-Holds tables c who p none s (λ other n. absurd cc) d h
  Served-Holds tables c s full fresh (handled who p ready (some key) at_key miss r d) h =
      Delivery-Holds tables c who p (some key) (looked_up env.ttl (some key) c.asked_at s)
        (λ other same.
          subst (λ o. k == o ≡ false) (some_inj same)
            (miss-other env.ttl k e full key c.asked_at s fresh h miss))
        d (Holds-looked_up env.ttl k e full (some key) c.asked_at s fresh h)
