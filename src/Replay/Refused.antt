-- ===== src/Replay/Refused.antt =====
-- aigrp/envelope.py: a message id that comes again while its entry lives.
use th_layer_agent.Common.{
  ℕ, ◌+◌, ◌≤◌, ◌<◌, suc, ltb, String, true, false, List, [], ◌∷◌, ◌++◌, length, length-append,
  append_assoc, ◌≡◌, refl, sym, ap, subst, ◌∙◌, inl, inr, arith, Bool-cases, str_eq_refl,
}
use th_layer_agent.Replay.{Entry, Limits, seen, evict_expired, cap, check_and_record}

-- A later call: its sender, its message id and its time.
pub record Attempt : Type 0 where
  pub src : String
  pub msg : String
  pub now : ℕ

unfoldable pub attempts : Limits → List Attempt → List Entry → List Entry
attempts limits [] entries = entries
attempts limits (a ∷ rest) entries =
    attempts limits rest (check_and_record limits a.src a.msg a.now entries).1

-- All calls are made before the entry of a record at `t` expires.
unfoldable pub Within : Limits → ℕ → List Attempt → Type 0
Within limits t [] = Unit
Within limits t (a ∷ rest) = (a.now ≤ t + limits.ttl) × Within limits t rest

-- The entry is there, with at most `n` entries behind it.
record Held (e : Entry) (n : ℕ) (entries : List Entry) : Type 0 where
  before : List Entry
  behind : List Entry
  split : entries ≡ before ++ e ∷ behind
  few : length behind ≤ n

module _ (limits : Limits) (e : Entry) where
  seen-there : (xs ys : List Entry) → seen e.src_l2_id e.msg_id (xs ++ e ∷ ys) ≡ true
  unfolding seen
  seen-there [] ys = ground (arith, str_eq_refl e.src_l2_id, str_eq_refl e.msg_id)
  seen-there (x ∷ xs) ys = ground (arith, seen-there xs ys)

  evict-Held :
      (now n : ℕ) (xs ys : List Entry)
      → now ≤ e.recorded + limits.ttl
      → length ys ≤ n
      → Held e n (evict_expired limits now (xs ++ e ∷ ys))
  unfolding evict_expired
  evict-Held now n [] ys young few = record {
    before = [];
    behind = ys;
    split = ground (arith, young);
    few = few;
  }
  evict-Held now n (x ∷ xs) ys young few = elim (Bool-cases (ltb (x.recorded + limits.ttl) now)) [
    | inl old ↦ rw old (evict-Held now n xs ys young few)
    | inr kept ↦ rw kept (record { before = x ∷ xs; behind = ys; split = refl; few = few })
  ]

  cap-Held :
      (n : ℕ) (xs ys : List Entry)
      → length ys ≤ n
      → n < limits.max
      → Held e n (cap limits (xs ++ e ∷ ys))
  unfolding cap
  cap-Held n [] ys few room = record {
    before = [];
    behind = ys;
    split = ground (arith, few, room);
    few = few;
  }
  cap-Held n (x ∷ xs) ys few room = elim (Bool-cases (ltb limits.max (length (x ∷ xs ++ e ∷ ys)))) [
    | inl over ↦ rw over (record { before = xs; behind = ys; split = refl; few = few })
    | inr fits ↦ rw fits (record { before = x ∷ xs; behind = ys; split = refl; few = few })
  ]

  weaken : (n m : ℕ) (entries : List Entry) → n ≤ m → Held e n entries → Held e m entries
  weaken n m entries le h = record {
    before = h.before;
    behind = h.behind;
    split = h.split;
    few = omega (arith, le, h.few);
  }

  cap-snoc :
      (n : ℕ) (entries : List Entry) (new : Entry)
      → suc n < limits.max
      → Held e n entries
      → Held e (suc n) (cap limits (entries ++ new ∷ []))
  cap-snoc n entries new room h =
      subst (λ es. Held e (suc n) (cap limits es))
        (sym (ap (λ es. es ++ new ∷ []) h.split ∙ append_assoc h.before (e ∷ h.behind) (new ∷ [])))
        (cap-Held (suc n) h.before (h.behind ++ new ∷ [])
          (omega (arith, h.few, length-append h.behind (new ∷ []))) room)

  evicted :
      (now n : ℕ) (entries : List Entry)
      → now ≤ e.recorded + limits.ttl
      → Held e n entries
      → Held e n (evict_expired limits now entries)
  evicted now n entries young h =
      subst (λ es. Held e n (evict_expired limits now es)) (sym h.split)
        (evict-Held now n h.before h.behind young h.few)

  step-Held :
      (a : Attempt) (n : ℕ) (entries : List Entry)
      → a.now ≤ e.recorded + limits.ttl
      → suc n < limits.max
      → Held e n entries
      → Held e (suc n) (check_and_record limits a.src a.msg a.now entries).1
  unfolding check_and_record
  step-Held a n entries young room h =
      let kept = evicted a.now n entries young h in
      elim (Bool-cases (seen a.src a.msg (evict_expired limits a.now entries))) [
        | inl replayed ↦ rw replayed (weaken n (suc n) _ (omega arith) kept)
        | inr fresh ↦ rw fresh (cap-snoc n _ _ room kept)
      ]

  attempts-Held :
      (later : List Attempt) (n : ℕ) (entries : List Entry)
      → Within limits e.recorded later
      → n + length later < limits.max
      → Held e n entries
      → Held e (n + length later) (attempts limits later entries)
  unfolding attempts Within
  attempts-Held [] n entries w room h = weaken n (n + 0) entries (omega arith) h
  attempts-Held (a ∷ rest) n entries w room h =
      subst (λ m. Held e m (attempts limits (a ∷ rest) entries)) (omega arith)
        (attempts-Held rest (suc n) _ w.1 (omega (arith, room))
          (step-Held a n entries w.0 (omega (arith, room)) h))

  refused :
      (now n : ℕ) (entries : List Entry)
      → now ≤ e.recorded + limits.ttl
      → Held e n entries
      → (check_and_record limits e.src_l2_id e.msg_id now entries).0 ≡ false
  unfolding check_and_record
  refused now n entries young h =
      let kept = evicted now n entries young h in
      let there : seen e.src_l2_id e.msg_id (evict_expired limits now entries) ≡ true =
        ap (seen e.src_l2_id e.msg_id) kept.split ∙ seen-there kept.before kept.behind in
      ground (arith, there)

module _ (limits : Limits) where
  recorded-Held :
      (src msg : String) (now : ℕ) (entries : List Entry)
      → 0 < limits.max
      → (check_and_record limits src msg now entries).0 ≡ true
      → Held
          (record { src_l2_id = src; msg_id = msg; recorded = now })
          0
          (check_and_record limits src msg now entries).1
  unfolding check_and_record
  recorded-Held src msg now entries room h =
      elim (Bool-cases (seen src msg (evict_expired limits now entries))) [
        | inl replayed ↦ absurd (ground (arith, replayed, h))
        | inr fresh ↦ rw fresh (
            cap-Held limits (record { src_l2_id = src; msg_id = msg; recorded = now }) 0
              (evict_expired limits now entries) [] (omega arith) room)
      ]

  -- A message id that was found fresh is refused from then on while its entry has not expired, if the
  -- calls in between all come before that expiry and are fewer than the entries that the cache holds.
  pub check_and_record-replay :
      (src msg : String) (now again : ℕ) (entries : List Entry) (later : List Attempt)
      → (check_and_record limits src msg now entries).0 ≡ true
      → Within limits now later
      → again ≤ now + limits.ttl
      → length later < limits.max
      → (check_and_record limits src msg again
          (attempts limits later (check_and_record limits src msg now entries).1)).0
        ≡ false
  check_and_record-replay src msg now again entries later h w young room =
      let e : Entry = record { src_l2_id = src; msg_id = msg; recorded = now } in
      refused limits e again (0 + length later) _ young (
        attempts-Held limits e later 0 _ w (omega (arith, room))
          (recorded-Held src msg now entries (omega (arith, room)) h))
