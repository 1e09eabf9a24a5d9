-- ===== src/Aigrp/Once.antt =====
-- The window for timestamps and the cache of message ids of envelope.py, together, on a
-- sequence of envelopes.
use th_layer_agent.Common.{
  ℕ, ◌+◌, ◌*◌, ◌≤◌, ◌<◌, ltb, String, true, false, ◌≡◌, refl, sym, ◌∙◌, ap, subst, List, [], ◌∷◌,
  All, arith, length, ◌++◌, length-append, ◌≢◌, All-weaken,
}
use th_layer_agent.Common.Exec.{Exec, Result, ok, ok_inj, ok≢err}
use th_layer_agent.Merkle.{Bytes}
use th_layer_agent.Replay.{Entry, Limits, check_and_record}
use th_layer_agent.Replay.Refused.{Attempt, attempts, Within, check_and_record-replay}
use th_layer_agent.Aigrp.Envelope.{Wire, Field, text, Rejection, Libraries}
use th_layer_agent.Aigrp.Verify.{Clocks, tolerance, skew, verify_envelope}
use th_layer_agent.Aigrp.Checked.{
  Fits, Authentic, Verified, refused, replayed, accepted, verify-Verified,
}

-- An envelope that arrives, with the receiver's side of its check.
pub record Arrival (J : Type 0) : Type 0 where
  pub wire : Wire J
  pub mac : Field
  pub pair_secret : Bytes
  pub expected_dst : String
  pub clocks : Clocks

text_inj : {a b : String} → text a ≡ text b → a ≡ b
text_inj e = cc

skew-bound :
    (now at bound : ℕ) → ltb bound (skew now at) ≡ false → (now ≤ at + bound) × (at ≤ now + bound)
unfolding skew
skew-bound now at bound h = (ground arith, ground arith)

module _ {J : Type 0} (lib : Libraries J) (limits : Limits) where
  abbrev pub verify : Arrival J → Exec Rejection (List Entry) J
  verify a = verify_envelope lib limits a.wire a.mac a.pair_secret a.expected_dst a.clocks

  -- The cache after a sequence of arrivals.
  unfoldable pub verify_all : List (Arrival J) → List Entry → List Entry
  verify_all [] s = s
  verify_all (a ∷ rest) s = verify_all rest (verify a s).1

  Verified-attempts :
      (a : Arrival J) (s : List Entry) {r : Result Rejection J × List Entry}
      → Verified lib limits a.wire a.mac a.pair_secret a.expected_dst a.clocks s r
      → (made : List Attempt) × (r.1 ≡ attempts limits made s)
        × (All (λ x. x.now ≡ (a.clocks).monotonic) made)
        × (length made ≤ 1)
  unfolding attempts
  Verified-attempts a s (refused f why) = ([], refl, tt, omega arith)
  Verified-attempts a s (replayed src msg_id payload fits authentic stale) = (
    record { src = src; msg = msg_id; now = (a.clocks).monotonic } ∷ [],
    refl,
    (refl, tt),
    omega arith,
  )
  Verified-attempts a s (accepted src msg_id payload fits authentic yes_) = (
    record { src = src; msg = msg_id; now = (a.clocks).monotonic } ∷ [],
    refl,
    (refl, tt),
    omega arith,
  )

  attempts-append :
      (xs ys : List Attempt) (s : List Entry)
      → attempts limits (xs ++ ys) s ≡ attempts limits ys (attempts limits xs s)
  unfolding attempts
  attempts-append [] ys s = refl
  attempts-append (x ∷ xs) ys s =
      attempts-append xs ys (check_and_record limits x.src x.msg x.now s).1

  Within-append :
      (t : ℕ) (xs ys : List Attempt) (m : ℕ)
      → m ≤ t + limits.ttl
      → All (λ x. x.now ≡ m) xs
      → Within limits t ys
      → Within limits t (xs ++ ys)
  unfolding Within
  Within-append t [] ys m le same w = w
  Within-append t (x ∷ xs) ys m le same w =
      (omega (arith, le, same.0), Within-append t xs ys m le same.1 w)

  verify_all-attempts :
      (t : ℕ) (later : List (Arrival J)) (s : List Entry)
      → All (λ a. (a.clocks).monotonic ≤ t + limits.ttl) later
      → (made : List Attempt) × (verify_all later s ≡ attempts limits made s)
        × Within limits t made
        × (length made ≤ length later)
  unfolding verify_all attempts Within
  verify_all-attempts t [] s w = ([], refl, tt, omega arith)
  verify_all-attempts t (a ∷ later) s w =
      let one =
        Verified-attempts a s
          (verify-Verified lib limits a.wire a.mac a.pair_secret a.expected_dst a.clocks s) in
      let rest = verify_all-attempts t later (verify a s).1 w.1 in
      (
        one.0 ++ rest.0,
        rest.1 ∙ ap (attempts limits rest.0) one.1 ∙ sym (attempts-append one.0 rest.0 s),
        Within-append t one.0 rest.0 (a.clocks).monotonic w.0 one.2 rest.2,
        omega (arith, length-append one.0 rest.0, one.3, rest.3),
      )

  Verified-accepted :
      (a : Arrival J) (s : List Entry) {r : Result Rejection J × List Entry} {payload : J}
      → Verified lib limits a.wire a.mac a.pair_secret a.expected_dst a.clocks s r
      → r.0 ≡ ok payload
      → (src : String) × (msg_id : String) × Fits lib a.wire a.expected_dst
          (a.clocks).now
          src
          msg_id
          payload
        × Authentic lib a.wire a.mac a.pair_secret
        × ((check_and_record limits src msg_id (a.clocks).monotonic s).0 ≡ true)
        × (r.1 ≡ (check_and_record limits src msg_id (a.clocks).monotonic s).1)
  Verified-accepted a s (refused f why) h = absurd (ok≢err (sym h))
  Verified-accepted a s (replayed src msg_id payload fits authentic n) h = absurd (ok≢err (sym h))
  Verified-accepted a s {payload = payload} (accepted src msg_id mine fits authentic y) h = (
    src,
    msg_id,
    subst (Fits lib a.wire a.expected_dst (a.clocks).now src msg_id) (ok_inj h) fits,
    authentic,
    y,
    refl,
  )

  -- the second check comes before the entry of the first one expires, if the time stamp fits both
  in_window :
      (w : Wire J) (dst dst' src src' id id' : String) (p p' : J) (first again : Clocks)
      → Fits lib w dst first.now src id p
      → Fits lib w dst' again.now src' id' p'
      → again.monotonic + first.now ≤ again.now + first.monotonic
      → 2 * tolerance ≤ limits.ttl
      → again.monotonic ≤ first.monotonic + limits.ttl
  in_window w dst dst' src src' id id' p p' first again fits fits' same_pace wide =
      let at : fits.at ≡ fits'.at = ok_inj (sym fits.at_time ∙ fits'.at_time) in
      let before = skew-bound first.now fits.at tolerance fits.in_time in
      let after = skew-bound again.now fits'.at tolerance fits'.in_time in
      omega (arith, at, before.1, after.0, same_pace, wide)

  -- An envelope that was accepted is not accepted again, at whatever time and by whatever secret and
  -- mac it is checked, if the cache keeps its entries for twice the tolerance of the time stamp, the
  -- checks in between come no later than the second one and are fewer than the entries that the cache
  -- holds, and the monotonic clock has not run ahead of the time of day in between.
  pub verify_envelope-once :
      (first again : Arrival J) (later : List (Arrival J)) (s : List Entry) (payload payload' : J)
      → again.wire ≡ first.wire
      → 2 * tolerance ≤ limits.ttl
      → (again.clocks).monotonic + (first.clocks).now
        ≤ (again.clocks).now + (first.clocks).monotonic
      → All (λ a. (a.clocks).monotonic ≤ (again.clocks).monotonic) later
      → length later < limits.max
      → (verify first s).0 ≡ ok payload
      → ◌≢◌ (verify again (verify_all later (verify first s).1)).0 (ok payload')
  verify_envelope-once first again later s payload payload' same wide pace in_order room h h' =
      let one =
        Verified-accepted first s
          (verify-Verified lib limits first.wire first.mac first.pair_secret first.expected_dst
            first.clocks s)
          h in
      let rest = verify_all later (verify first s).1 in
      let two =
        Verified-accepted again rest
          (verify-Verified lib limits again.wire again.mac again.pair_secret again.expected_dst
            again.clocks rest)
          h' in
      let fits' =
        subst (λ w. Fits lib w again.expected_dst (again.clocks).now two.0 two.1 payload') same
          two.2 in
      let young =
        in_window first.wire first.expected_dst again.expected_dst one.0 two.0 one.1 two.1 payload
          payload' first.clocks again.clocks one.2 fits' pace wide in
      let made = verify_all-attempts (first.clocks).monotonic later (verify first s).1 (
        All-weaken (λ a. (a.clocks).monotonic ≤ (again.clocks).monotonic)
          (λ a. (a.clocks).monotonic ≤ (first.clocks).monotonic + limits.ttl) later in_order
          (λ a le. omega (arith, le, young))) in
      let src : one.0 ≡ two.0 = text_inj (sym (one.2).from_src ∙ fits'.from_src) in
      let id : one.1 ≡ two.1 = text_inj (sym (one.2).with_id ∙ fits'.with_id) in
      let replay =
        check_and_record-replay limits one.0 one.1 (first.clocks).monotonic (again.clocks).monotonic
          s made.0 one.4 made.2 young (omega (arith, made.3, room)) in
      let cache = made.1 ∙ ap (attempts limits made.0) one.5 in
      let renamed =
        ap (λ x. (check_and_record limits x one.1 (again.clocks).monotonic rest).0) src
        ∙ ap (λ x. (check_and_record limits two.0 x (again.clocks).monotonic rest).0) id in
      let clash : true ≡ false =
        sym two.4
        ∙ sym renamed
        ∙ ap (λ e. (check_and_record limits one.0 one.1 (again.clocks).monotonic e).0) cache
        ∙ replay in
      cc
