-- ===== src/Aigrp/Errors.antt =====
-- envelope.py: how the check of an envelope fails.
use th_layer_agent.Common.{String, ◌≡◌, refl, List, ◌⊎◌, inl, inr, subst, sym}
use th_layer_agent.Common.Exec.{Result, err, ok≢err}
use th_layer_agent.Merkle.{Bytes}
use th_layer_agent.Replay.{Entry, Limits}
use th_layer_agent.Aigrp.Envelope.{Wire, Field, Rejection, rejected, Libraries}
use th_layer_agent.Aigrp.Checked.{Verified, refused, replayed, accepted, verify-Verified}
use th_layer_agent.Aigrp.Reasons.{Explained}
use th_layer_agent.Aigrp.Verify.{Clocks, verify_envelope}

module _ {J : Type 0} (lib : Libraries J) (limits : Limits) (w : Wire J) (mac : Field)
    (pair_secret : Bytes) (expected_dst : String) (clocks : Clocks) where
  err_inj : {a b : Rejection} → ◌≡◌ {A = Result Rejection J} (err a) (err b) → a ≡ b
  err_inj e = cc

  Verified-failure :
      (s : List Entry) (f : Rejection) {r : Result Rejection J × List Entry}
      → Verified lib limits w mac pair_secret expected_dst clocks s r
      → r.0 ≡ err f
      → Explained lib w expected_dst f × ((r.1 ≡ s) ⊎ (f ≡ rejected "replay"))
  Verified-failure s f (refused g why) h =
      let same : g ≡ f = err_inj h in (subst (Explained lib w expected_dst) same why, inl refl)
  Verified-failure s f (replayed src msg_id payload fits authentic known) h =
      let same : f ≡ rejected "replay" = err_inj (sym h) in
      (inl ("replay", same, inr (inr (inr (inr (inr (inl refl)))))), inr same)
  Verified-failure s f (accepted src msg_id payload fits authentic fresh) h = absurd (ok≢err h)

  -- A check that fails ends with one of the seven reasons that are documented, or with another
  -- exception; then the envelope names the receiver both as its sender and as its receiver, or has a
  -- time stamp that is no text, or has no canonical form. A failure that is not a replay leaves the
  -- cache as it was.
  pub verify_envelope-failure :
      (s : List Entry) (f : Rejection)
      → (verify_envelope lib limits w mac pair_secret expected_dst clocks s).0 ≡ err f
      → Explained lib w expected_dst f
        × (((verify_envelope lib limits w mac pair_secret expected_dst clocks s).1 ≡ s)
            ⊎ (f ≡ rejected "replay"))
  verify_envelope-failure s f h =
      Verified-failure s f (verify-Verified lib limits w mac pair_secret expected_dst clocks s) h
