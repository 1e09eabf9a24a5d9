-- ===== src/Aigrp/Checked.antt =====
-- What the checks of envelope.py have shown of an envelope that passes them.
use th_layer_agent.Common.{
  In, ℕ, ltb, String, true, false, ◌≡◌, refl, sym, ◌∙◌, ap, subst, some, List, [], ◌∷◌, ◌==◌,
  Bool-cases, Option-cases, arith, inl, inr, ◌⊎◌, str_eq→eq, is_none,
}
use th_layer_agent.Common.Exec.{Result, ok, err, Result-cases}
use th_layer_agent.Merkle.{Bytes}
use th_layer_agent.Replay.{Entry, Limits, check_and_record}
use th_layer_agent.Aigrp.Envelope.{
  Wire, Field, absent, text, other_type, Rejection, rejected, uncaught, Libraries,
  canonical_pair_id,
}
use th_layer_agent.Aigrp.Reasons.{
  reasons, Documented, Explained, unpaired-Explained, untimed-Explained, formless,
}
use th_layer_agent.Aigrp.Verify.{
  malformed, is_text, full_text, lacks_member, decoded, time_of, skew, tolerance, bytes_eq,
  check_header, check_mac, verify_envelope, Clocks,
}

is_text-eq : (s : String) (f : Field) → is_text s f ≡ true → f ≡ text s
is_text-eq s absent h = absurd cc
is_text-eq s (text t) h = ap text (str_eq→eq t s h)
is_text-eq s other_type h = absurd cc

full_text-eq : (f : Field) {s : String} → full_text f ≡ some s → f ≡ text s
full_text-eq absent h = absurd cc
full_text-eq (text t) h = ground arith
full_text-eq other_type h = absurd cc

because : {E : Type 0} (reason : String) → In reason reasons → Documented (rejected reason) ⊎ E
because reason i = inl (reason, refl, i)

module _ {J : Type 0} (lib : Libraries J) where
  -- The envelope is for this receiver, from another group of a pair that it names, and of this time.
  pub record Fits (w : Wire J) (expected_dst : String) (now : ℕ) (src msg_id : String) (payload : J)
      : Type 0 where
    pub from_src : w.src_l2_id ≡ text src
    pub to_dst : w.dst_l2_id ≡ text expected_dst
    pub with_id : w.msg_id ≡ text msg_id
    pub with_payload : w.payload ≡ some payload
    pub pair : String
    pub is_pair : canonical_pair_id lib src expected_dst ≡ some pair
    pub of_pair : w.pair_id ≡ text pair
    pub at : ℕ
    pub at_time : time_of lib w.ts ≡ ok at
    pub in_time : ltb tolerance (skew now at) ≡ false

  module _ (w : Wire J) (mac : Field) (expected_dst : String) (now : ℕ) where
    -- the checks either all pass, or one of them refuses, in whatever state
    pub header-cases :
        ((src : String) × ((msg_id : String) × ((payload : J) × Fits w expected_dst now src msg_id
                payload
              × ((s : List Entry)
                  → check_header lib w mac expected_dst now s ≡ (ok (src, msg_id, payload), s)))))
        ⊎ ((f : Rejection) × Explained lib w expected_dst f
            × ((s : List Entry) → check_header lib w mac expected_dst now s ≡ (err f, s)))
    unfolding check_header
    header-cases = elim (Bool-cases (lacks_member w mac)) [
      | inl t ↦ inr (malformed, because "malformed" (inl refl), λ s. ground arith)
      | inr f ↦ elim (Option-cases w.payload) [
        | inl n ↦ inr (malformed, because "malformed" (inl refl), λ s. ground arith)
        | inr (payload, e1) ↦ elim (Bool-cases (is_text "v1" w.version)) [
          | inr f2 ↦ inr (rejected "version", because "version" (inr (inl refl)), λ s. ground arith)
          | inl t2 ↦ elim (Option-cases (full_text w.src_l2_id)) [
            | inl n ↦ inr (malformed, because "malformed" (inl refl), λ s. ground arith)
            | inr (src, e3) ↦ elim (Option-cases (full_text w.dst_l2_id)) [
              | inl n ↦ inr (malformed, because "malformed" (inl refl), λ s. ground arith)
              | inr (dst, e4) ↦ elim (Bool-cases (dst == expected_dst)) [
                | inr f5 ↦ inr (
                  rejected "dst_mismatch",
                  because "dst_mismatch" (inr (inr (inr (inl refl)))),
                  λ s. ground arith,
                )
                | inl t5 ↦ elim (Option-cases (canonical_pair_id lib src dst)) [
                  | inl n ↦
                      let unpaired =
                        unpaired-Explained lib w expected_dst src dst e3 e4
                          (full_text-eq w.src_l2_id e3) (full_text-eq w.dst_l2_id e4)
                          (str_eq→eq dst expected_dst t5) n in
                      inr (uncaught, unpaired, λ s. ground arith)
                  | inr (pair, e6) ↦ elim (Bool-cases (is_text pair w.pair_id)) [
                    | inr f7 ↦ inr (
                      rejected "pair_mismatch",
                      because "pair_mismatch" (inr (inr (inl refl))),
                      λ s. ground arith,
                    )
                    | inl t7 ↦ elim (Option-cases (full_text w.msg_id)) [
                      | inl n ↦ inr (malformed, because "malformed" (inl refl), λ s. ground arith)
                      | inr (msg_id, e8) ↦ elim (Bool-cases (is_none (decoded lib w.nonce))) [
                        | inl t9 ↦
                            inr (malformed, because "malformed" (inl refl), λ s. ground arith)
                        | inr f9 ↦ elim (Result-cases (time_of lib w.ts)) [
                          | inr (e, e10) ↦ inr (
                            e,
                            untimed-Explained lib w expected_dst mac e f e10,
                            λ s. ground arith,
                          )
                          | inl (at, e10) ↦ elim (Bool-cases (ltb tolerance (skew now at))) [
                            | inl t11 ↦ inr (
                              rejected "ts_out_of_bounds",
                              because "ts_out_of_bounds" (inr (inr (inr (inr (inl refl))))),
                              λ s. ground arith,
                            )
                            | inr f11 ↦
                                let same : dst ≡ expected_dst = str_eq→eq dst expected_dst t5 in
                                inl (
                                  src,
                                  (
                                    msg_id,
                                    (
                                      payload,
                                      record {
                                        from_src = full_text-eq w.src_l2_id e3;
                                        to_dst = full_text-eq w.dst_l2_id e4 ∙ ap text same;
                                        with_id = full_text-eq w.msg_id e8;
                                        with_payload = e1;
                                        pair = pair;
                                        is_pair =
                                            subst (λ d. canonical_pair_id lib src d ≡ some pair)
                                              same e6;
                                        of_pair = is_text-eq pair w.pair_id t7;
                                        at = at;
                                        at_time = e10;
                                        in_time = f11;
                                      },
                                      λ s. ground arith,
                                    ),
                                  ),
                                )
                          ]
                        ]
                      ]
                    ]
                  ]
                ]
              ]
            ]
          ]
        ]
      ]
    ]

bytes_eq→eq : (a b : Bytes) → bytes_eq a b ≡ true → a ≡ b
unfolding bytes_eq
bytes_eq→eq [] [] h = refl
bytes_eq→eq [] (y ∷ ys) h = absurd cc
bytes_eq→eq (x ∷ xs) [] h = absurd cc
bytes_eq→eq (x ∷ xs) (y ∷ ys) h = ground (arith, bytes_eq→eq xs ys)

pub bytes_eq_refl : (a : Bytes) → bytes_eq a a ≡ true
unfolding bytes_eq
bytes_eq_refl [] = refl
bytes_eq_refl (x ∷ xs) = ground (arith, bytes_eq_refl xs)

module _ {J : Type 0} (lib : Libraries J) (w : Wire J) (mac : Field) (pair_secret : Bytes) where
  -- The mac is the one of this envelope under the secret.
  unfoldable pub Authentic : Type 0
  Authentic =
      (bytes : Bytes) × (lib.canonicalize w ≡ some bytes)
      × (decoded lib mac ≡ some (lib.hmac_sha256 pair_secret bytes))

  pub mac-cases :
      (expected_dst : String)
      → (Authentic × ((s : List Entry) → check_mac lib w mac pair_secret s ≡ (ok tt, s)))
        ⊎ ((f : Rejection) × Explained lib w expected_dst f
            × ((s : List Entry) → check_mac lib w mac pair_secret s ≡ (err f, s)))
  unfolding Authentic check_mac
  mac-cases expected_dst = elim (Option-cases (decoded lib mac)) [
    | inl n ↦ inr (malformed, because "malformed" (inl refl), λ s. ground arith)
    | inr (received, e) ↦ elim (Option-cases (lib.canonicalize w)) [
      | inl n ↦ inr (uncaught, inr (refl, formless n), λ s. ground arith)
      | inr (bytes, c) ↦ elim (Bool-cases (bytes_eq (lib.hmac_sha256 pair_secret bytes) received)) [
        | inr f ↦ inr (
          rejected "mac",
          because "mac" (inr (inr (inr (inr (inr (inr (inl refl))))))),
          λ s. ground arith,
        )
        | inl t ↦
            let same = bytes_eq→eq (lib.hmac_sha256 pair_secret bytes) received t in
            inl ((bytes, c, e ∙ ap some (sym same)), λ s. ground arith)
      ]
    ]
  ]

module _ {J : Type 0} (lib : Libraries J) (limits : Limits) (w : Wire J) (mac : Field)
    (pair_secret : Bytes) (expected_dst : String) (clocks : Clocks) where
  -- A check refuses without a look at the cache, or all but the cache is as it must be and the cache
  -- decides.
  pub data Verified (s : List Entry) : Result Rejection J × List Entry → Type 0 where
    refused : (f : Rejection) → Explained lib w expected_dst f → Verified s (err f, s)
    replayed :
        (src msg_id : String) (payload : J)
        → Fits lib w expected_dst clocks.now src msg_id payload
        → Authentic lib w mac pair_secret
        → (check_and_record limits src msg_id clocks.monotonic s).0 ≡ false
        → Verified s
            (err (rejected "replay"), (check_and_record limits src msg_id clocks.monotonic s).1)
    accepted :
        (src msg_id : String) (payload : J)
        → Fits lib w expected_dst clocks.now src msg_id payload
        → Authentic lib w mac pair_secret
        → (check_and_record limits src msg_id clocks.monotonic s).0 ≡ true
        → Verified s (ok payload, (check_and_record limits src msg_id clocks.monotonic s).1)

  pub verify-Verified :
      (s : List Entry)
      → Verified s (verify_envelope lib limits w mac pair_secret expected_dst clocks s)
  unfolding verify_envelope
  verify-Verified s = elim (header-cases lib w mac expected_dst clocks.now) [
    | inr (f, why, runs) ↦ rw (runs s) (refused f why)
    | inl (src, (msg_id, (payload, fits, runs))) ↦
        elim (mac-cases lib w mac pair_secret expected_dst) [
          | inr (f, why, runs') ↦ rw (runs s) (rw (runs' s) (refused f why))
          | inl (authentic, runs') ↦
              elim (Bool-cases (check_and_record limits src msg_id clocks.monotonic s).0) [
                | inr f ↦
                    rw (runs s) (rw (runs' s) (rw f (replayed src msg_id payload fits authentic f)))
                | inl t ↦
                    rw (runs s) (rw (runs' s) (rw t (accepted src msg_id payload fits authentic t)))
              ]
        ]
  ]
