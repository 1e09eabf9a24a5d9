-- ===== src/Aigrp/Reasons.antt =====
-- envelope.py: the reasons that the check of an envelope names, and the exceptions that escape it.
use th_layer_agent.Common.{
  String, false, ◌≡◌, refl, ap, ◌∙◌, List, [], ◌∷◌, none, some, ◌==◌, In, inl, inr, ◌⊎◌, arith,
  Bool-cases, Option-cases, str_eq→eq,
}
use th_layer_agent.Common.Exec.{err}
use th_layer_agent.Aigrp.PairSecret.{lex_min_canonical}
use th_layer_agent.Aigrp.Envelope.{
  Wire, Field, absent, text, other_type, Rejection, rejected, uncaught, Libraries,
  canonical_pair_id,
}
use th_layer_agent.Aigrp.Verify.{malformed, is_absent, full_text, time_of, replace_z, lacks_member}

-- the reasons that the docstring of `verify_envelope` lists
abbrev pub reasons : List String
reasons =
    "malformed" ∷ "version" ∷ "pair_mismatch" ∷ "dst_mismatch" ∷ "ts_out_of_bounds" ∷ "replay"
    ∷ "mac" ∷ []

abbrev pub Documented : Rejection → Type 0
Documented f = (reason : String) × (f ≡ rejected reason) × In reason reasons

module _ {J : Type 0} (lib : Libraries J) (w : Wire J) (expected_dst : String) where
  -- Where the check ends with another exception: the sender is the receiver, the time stamp is no
  -- text, or the envelope has no canonical form.
  pub data Escapes : Type 0 where
    own_id : w.src_l2_id ≡ text expected_dst → w.dst_l2_id ≡ text expected_dst → Escapes
    untimely : w.ts ≡ other_type → Escapes
    formless : lib.canonicalize w ≡ none → Escapes

  abbrev pub Explained : Rejection → Type 0
  Explained f = Documented f ⊎ ((f ≡ uncaught) × Escapes)

  full_text-full : (f : Field) {s : String} → full_text f ≡ some s → s == "" ≡ false
  full_text-full absent h = absurd cc
  full_text-full (text t) h = ground arith
  full_text-full other_type h = absurd cc

  pub unpaired-Explained :
      (src dst : String)
      → full_text w.src_l2_id ≡ some src
      → full_text w.dst_l2_id ≡ some dst
      → w.src_l2_id ≡ text src
      → w.dst_l2_id ≡ text dst
      → dst ≡ expected_dst
      → canonical_pair_id lib src dst ≡ none
      → Explained uncaught
  unfolding canonical_pair_id lex_min_canonical
  unpaired-Explained src dst from to from_src to_dst here h = elim (Bool-cases (src == dst)) [
    | inl t ↦
        let same : src ≡ expected_dst = str_eq→eq src dst t ∙ here in
        inr (refl, own_id (from_src ∙ ap text same) (to_dst ∙ ap text here))
    | inr f ↦
        let full = full_text-full w.src_l2_id from in
        let full' = full_text-full w.dst_l2_id to in absurd (ground arith)
  ]

  absent_ts : (mac : Field) → lacks_member w mac ≡ false → is_absent w.ts ≡ false
  unfolding lacks_member
  absent_ts mac h = ground arith

  time_of-err :
      (ts : Field) (f : Rejection)
      → is_absent ts ≡ false
      → time_of lib ts ≡ err f
      → (f ≡ malformed) ⊎ ((f ≡ uncaught) × (ts ≡ other_type))
  unfolding time_of
  time_of-err absent f h e = absurd cc
  time_of-err (text s) f h e = elim (Option-cases (lib.fromisoformat (replace_z s))) [
    | inl n ↦ inl (ground arith)
    | inr (none, n) ↦ inl (ground arith)
    | inr (some at, n) ↦ absurd (ground arith)
  ]
  time_of-err other_type f h e = inr (ground arith, refl)

  pub untimed-Explained :
      (mac : Field) (f : Rejection)
      → lacks_member w mac ≡ false
      → time_of lib w.ts ≡ err f
      → Explained f
  untimed-Explained mac f whole e = elim (time_of-err w.ts f (absent_ts mac whole) e) [
    | inl m ↦ inl ("malformed", m, inl refl)
    | inr (u, other) ↦ inr (u, untimely other)
  ]
