-- ===== src/Mail/Repeat.antt =====
-- routes.py of the mail service: a repeated request, and what the first one under its key has kept.
use text.Mathlib.TextLemmas.{append-eq-nil_iff}
use th_layer_agent.Common.{
  given, ℕ, ◌+◌, ltb, String, str_append, false, ◌≡◌, refl, sym, ap, ◌∙◌, subst, Option, none, some,
  List, [], ◌∷◌, ◌==◌, All, Bool-cases, Option-cases, arith, inl, inr, some_inj, str_eq→eq, str_ne,
  ◌⊎◌,
}
use th_layer_agent.Common.Exec.{Result, ok, err}
use th_layer_agent.Mail.Accepted.{Signed, failure_answer}
use th_layer_agent.Mail.Branches.{
  Delivery, foreign, stopped, failed, accepted, Served, refused, repeated, handled, Read, read,
  send-Served, looked_up, key_of, Unanswered,
}
use th_layer_agent.Mail.Idempotency.{Kept, get_answer}
use th_layer_agent.Mail.Kept.{Holds, Holds-put_self, get-Holds}
use th_layer_agent.Mail.Request.{SendRequest}
use th_layer_agent.Mail.Send.{
  Setting, Call, Service, Tables, Answer, Failure, remember, send_transactional, answer_409,
  suppressed, answer_202, derive_idempotency_key,
}
use th_layer_agent.Mail.Stays.{Served-Holds}

-- the answer that is kept for a result, where one is
unfoldable kept_answer : Result Failure Answer → Option Answer
unfolding failure_answer
kept_answer (ok a) = some a
kept_answer (err f) = failure_answer f

-- A request's end that keeps an answer: the answer was returned, or the recipient was suppressed and
-- its fields were raised, as the detail of an exception.
abbrev pub EndsWith : Result Failure Answer → Answer → Type 0
EndsWith r answer =
    (r ≡ ok answer)
    ⊎ ((reason : String) × (r ≡ err (suppressed reason)) × (answer ≡ answer_409 reason))

EndsWith-kept_answer :
    (r : Result Failure Answer) (answer : Answer) → EndsWith r answer → kept_answer r ≡ some answer
unfolding kept_answer failure_answer
EndsWith-kept_answer r answer (inl e) = ap kept_answer e
EndsWith-kept_answer r answer (inr (reason, e, f)) = ap kept_answer e ∙ ap some (sym f)

-- A sequence of calls, each with the tables as they are then.
unfoldable pub serve_all :
    {Body : Type 0} → Setting Body → List (Tables × Call Body) → Service → Service
serve_all env [] s = s
serve_all env ((tables, c) ∷ calls) s = serve_all env calls (send_transactional env tables c s).1

marked-full :
    (a mark b : String) → mark == "" ≡ false → str_append a (str_append mark b) == "" ≡ false
marked-full a mark b full = elim (Bool-cases (str_append a (str_append mark b) == "")) [
  | inr f ↦ f
  | inl t ↦
      let tail = ((append-eq-nil_iff).0 (str_eq→eq (str_append a (str_append mark b)) "" t)).1 in
      let head : mark ≡ "" = ((append-eq-nil_iff).0 tail).0 in absurd (str_ne mark "" full head)
]

key-full :
    (header : Option String) (l2_id : String) (ref : Option String) {k : String}
    → derive_idempotency_key header l2_id ref ≡ some k
    → k == "" ≡ false
unfolding derive_idempotency_key
key-full header l2_id ref {k} h = elim (Option-cases (given header)) [
  | inr (key, e) ↦
      let made : str_append l2_id (str_append ":hdr:" key) ≡ k = some_inj (ground arith) in
      subst (λ x. x == "" ≡ false) made (marked-full l2_id ":hdr:" key refl)
  | inl n ↦ elim (Option-cases (given ref)) [
    | inl m ↦ absurd (ground arith)
    | inr (r, e) ↦
        let made : str_append l2_id (str_append ":ref:" r) ≡ k = some_inj (ground arith) in
        subst (λ x. x == "" ≡ false) made (marked-full l2_id ":ref:" r refl)
  ]
]

module _ {Body : Type 0} (env : Setting Body) where
  -- the calls ask before an entry is stale
  abbrev pub Within : ℕ → List (Tables × Call Body) → Type 0
  Within last calls = All (λ x. ltb last (x.1).asked_at ≡ false) calls

  serve_all-Holds :
      (k : String) (e : Kept Answer) (calls : List (Tables × Call Body)) (s : Service)
      → k == "" ≡ false
      → Within (e.at + env.ttl) calls
      → Holds k e s.entries
      → Holds k e (serve_all env calls s).entries
  unfolding serve_all
  serve_all-Holds k e [] s full w h = h
  serve_all-Holds k e ((tables, c) ∷ calls) s full w h =
      serve_all-Holds k e calls (send_transactional env tables c s).1 full w.1
        (Served-Holds env k e tables c s full w.0 (send-Served env tables c s) h)

  Read-key :
      (c : Call Body) (who who' : String × String × String) (p p' : SendRequest)
      → Read env c who p
      → Read env c who' p'
      → key_of env c who p ≡ key_of env c who' p'
  unfolding Signed
  Read-key c who who' p p' (read signed runs e) (read signed' runs' e') =
      let ref : p.audit_ref ≡ p'.audit_ref = ap (λ x. x.audit_ref) (some_inj (sym e ∙ e')) in
      rw (some_inj (sym signed.0 ∙ signed'.0), ref) refl

  Delivery-kept :
      (tables : Tables) (c : Call Body) (who : String × String × String) (p : SendRequest)
      (k : String) (answer : Answer) (s : Service) {r : Result Failure Answer × Service}
      → k == "" ≡ false
      → Delivery env tables c who p (some k) s r
      → kept_answer r.0 ≡ some answer
      → Holds k (record { key = k; at = c.kept_at; answer = answer }) (r.1).entries
  unfolding kept_answer failure_answer remember
  Delivery-kept tables c who p k answer s full foreign answered = absurd cc
  Delivery-kept tables c who p k answer s full (stopped row found) answered =
      rw (some_inj (sym answered))
        (Holds-put_self k (answer_409 row.reason) c.kept_at s.entries full)
  Delivery-kept tables c who p k answer s full (failed may) answered = absurd cc
  Delivery-kept tables c who p k answer s full (accepted may message_id replied) answered =
      rw (some_inj (sym answered))
        (Holds-put_self k (answer_202 c.handle message_id) c.kept_at s.entries full)

  Served-kept :
      (tables : Tables) (c : Call Body) (s : Service) {r : Result Failure Answer × Service}
      (who : String × String × String) (p : SendRequest) (k : String) (answer : Answer)
      → Read env c who p
      → key_of env c who p ≡ some k
      → (get_answer env.ttl k c.asked_at s.entries).0 ≡ none
      → kept_answer r.0 ≡ some answer
      → Served env tables c s r
      → Holds k (record { key = k; at = c.kept_at; answer = answer }) (r.1).entries
  unfolding kept_answer
  Served-kept tables c s who p k answer ready at_k miss answered (refused f plain unread) =
      absurd (unread who p ready)
  Served-kept tables c s who p k answer ready at_k miss answered
        (repeated who' p' ready' key at_key answer' hit) =
      let same : key ≡ k = some_inj (sym at_key ∙ Read-key c who' who p' p ready' ready ∙ at_k) in
      let clash : some answer' ≡ none =
        sym hit
        ∙ subst (λ x. (get_answer env.ttl x c.asked_at s.entries).0 ≡ none) (sym same) miss in
      absurd cc
  Served-kept tables c s who p k answer ready at_k miss answered
        (handled who' p' ready' key at_key miss' r d) =
      Delivery-kept tables c who' p' k answer (looked_up env.ttl key c.asked_at s)
        (key-full c.idempotency_key who.0 p.audit_ref at_k)
        (subst (λ o. Delivery env tables c who' p' o (looked_up env.ttl key c.asked_at s) r)
          (sym at_key ∙ Read-key c who' who p' p ready' ready ∙ at_k) d)
        answered

  Served-again :
      (k : String) (e : Kept Answer) (tables : Tables) (c : Call Body) (s : Service)
      {r : Result Failure Answer × Service} (who : String × String × String) (p : SendRequest)
      → k == "" ≡ false
      → Read env c who p
      → key_of env c who p ≡ some k
      → ltb (e.at + env.ttl) c.asked_at ≡ false
      → Holds k e s.entries
      → Served env tables c s r
      → r ≡ (ok e.answer, s)
  unfolding Unanswered
  Served-again k e tables c s who p full ready at_k fresh h (refused f plain unread) =
      absurd (unread who p ready)
  Served-again k e tables c s who p full ready at_k fresh h
        (repeated who' p' ready' key at_key answer hit) =
      let same : key ≡ k = some_inj (sym at_key ∙ Read-key c who' who p' p ready' ready ∙ at_k) in
      let found = get-Holds env.ttl k e c.asked_at s.entries h full fresh in
      let found' : get_answer env.ttl key c.asked_at s.entries ≡ (some e.answer, s.entries) =
        rw same found in
      let equal : answer ≡ e.answer = some_inj (sym hit ∙ ap (λ x. x.0) found') in
      rw (found', equal) refl
  Served-again k e tables c s who p full ready at_k fresh h
        (handled who' p' ready' key at_key miss r d) =
      let same : key ≡ some k = sym at_key ∙ Read-key c who' who p' p ready' ready ∙ at_k in
      let missed : (get_answer env.ttl k c.asked_at s.entries).0 ≡ none =
        subst (λ o. Unanswered env o c.asked_at s) same miss in
      let clash : some e.answer ≡ none =
        sym (ap (λ x. x.0) (get-Holds env.ttl k e c.asked_at s.entries h full fresh)) ∙ missed in
      absurd cc

  -- Let a request that is signed and well formed, under a key for which nothing is kept, either return
  -- its answer or raise the exception of a suppressed recipient. While its entry is kept, and whatever
  -- is asked in between, another such request under the same key changes nothing and returns: in the
  -- first case the same answer, in the second status 409 with the fields of the exception's detail as
  -- its body.
  pub repeat-answer :
      (k : String) (answer : Answer) (first_tables : Tables) (first : Call Body) (s : Service)
      (who : String × String × String) (p : SendRequest) (between : List (Tables × Call Body))
      (tables : Tables) (again : Call Body) (who' : String × String × String) (p' : SendRequest)
      → Read env first who p
      → key_of env first who p ≡ some k
      → (get_answer env.ttl k first.asked_at s.entries).0 ≡ none
      → EndsWith (send_transactional env first_tables first s).0 answer
      → Within (first.kept_at + env.ttl) between
      → Read env again who' p'
      → key_of env again who' p' ≡ some k
      → ltb (first.kept_at + env.ttl) again.asked_at ≡ false
      → let later : Service =
          serve_all env between (send_transactional env first_tables first s).1 in
        send_transactional env tables again later ≡ (ok answer, later)
  repeat-answer k answer first_tables first s who p between tables again who' p' ready at_k miss
        ended w ready' at_k' fresh =
      let full = key-full first.idempotency_key who.0 p.audit_ref at_k in
      let entry : Kept Answer = record { key = k; at = first.kept_at; answer = answer } in
      let later : Service = serve_all env between (send_transactional env first_tables first s).1 in
      let kept =
        serve_all-Holds k entry between (send_transactional env first_tables first s).1 full w (
          Served-kept first_tables first s who p k answer ready at_k miss
            (EndsWith-kept_answer _ answer ended) (send-Served env first_tables first s)) in
      Served-again k entry tables again later who' p' full ready' at_k' fresh kept
        (send-Served env tables again later)
