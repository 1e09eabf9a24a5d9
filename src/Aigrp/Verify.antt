-- ===== src/Aigrp/Verify.antt =====
-- envelope.py: the check of an envelope that arrives.
use Prim.Native.Char.{code}
use th_layer_agent.Common.{
  ℕ, ◌-◌, ltb, String, Bool, true, false, not, ◌&&◌, ◌||◌, Option, none, some, List, [], ◌∷◌, ◌==◌,
  if◌then◌else◌, nat_eq, is_none, str_append,
}
use th_layer_agent.Common.Exec.{
  Exec, Result, ok, err, pure, get, put, raise_if, some_or, ◌>>=◌, ◌>>◌, from_result,
}
use th_layer_agent.Crypto.{b64u_decode}
use th_layer_agent.Merkle.{Bytes}
use th_layer_agent.Replay.{Entry, Limits, check_and_record}
use th_layer_agent.Aigrp.Envelope.{
  Field, absent, text, other_type, Wire, Rejection, rejected, uncaught, Libraries,
  canonical_pair_id,
}

abbrev pub is_absent : Field → Bool
is_absent absent = true
is_absent (text s) = false
is_absent other_type = false

-- a text that is not empty
abbrev pub full_text : Field → Option String
full_text absent = none
full_text (text s) = if s == "" then none else some s
full_text other_type = none

abbrev pub is_text : String → Field → Bool
is_text s absent = false
is_text s (text t) = t == s
is_text s other_type = false

-- `_REPLAY_TS_TOLERANCE_SEC`, in microseconds
abbrev pub tolerance : ℕ
tolerance = 300000000

-- `abs(now - ts)`
unfoldable pub skew : ℕ → ℕ → ℕ
skew now ts = if ltb now ts then ts - now else now - ts

-- `hmac.compare_digest` on bytes
unfoldable pub bytes_eq : Bytes → Bytes → Bool
bytes_eq [] [] = true
bytes_eq [] (y ∷ ys) = false
bytes_eq (x ∷ xs) [] = false
bytes_eq (x ∷ xs) (y ∷ ys) = nat_eq x y && bytes_eq xs ys

-- `s.replace("Z", "+00:00")`; 90 is the code of `Z`.
unfoldable pub replace_z : String → String
replace_z String.[] = ""
replace_z (String.◌∷◌ c s) =
    let rest = replace_z s in
    if nat_eq (code c) 90 then str_append "+00:00" rest else String.◌∷◌ c rest

-- the two clocks of a check, in microseconds: the time of day and the monotonic one
pub record Clocks : Type 0 where
  pub now : ℕ
  pub monotonic : ℕ

abbrev pub malformed : Rejection
malformed = rejected "malformed"

module _ {J : Type 0} where
  -- a required member is missing
  unfoldable pub lacks_member : Wire J → Field → Bool
  lacks_member w mac =
      is_absent w.version
      || is_absent w.pair_id
      || is_absent w.src_l2_id
      || is_absent w.dst_l2_id
      || is_absent w.ts
      || is_absent w.nonce
      || is_absent w.msg_id
      || is_none w.payload
      || is_absent mac

module _ {J : Type 0} (lib : Libraries J) where
  -- `b64u_decode` of a member, whose exceptions are all caught
  unfoldable pub decoded : Field → Option Bytes
  decoded absent = none
  decoded (text s) = b64u_decode lib.ed s
  decoded other_type = none

  -- the time of the envelope; a value that is no text has no `replace`
  unfoldable pub time_of : Field → Result Rejection ℕ
  unfolding replace_z
  time_of absent = err uncaught
  time_of (text s) = elim (lib.fromisoformat (replace_z s)) [
    | none ↦ err malformed
    | some none ↦ err malformed
    | some (some at) ↦ ok at
  ]
  time_of other_type = err uncaught

  -- the checks before the mac: the sender, the message id and the payload
  unfoldable pub check_header :
      Wire J → Field → String → ℕ → Exec Rejection (List Entry) (String × String × J)
  unfolding canonical_pair_id lacks_member decoded time_of skew
  check_header w mac expected_dst now = do
    raise_if (lacks_member w mac) malformed
    payload ← some_or w.payload malformed
    raise_if (not (is_text "v1" w.version)) (rejected "version")
    src ← some_or (full_text w.src_l2_id) malformed
    dst ← some_or (full_text w.dst_l2_id) malformed
    raise_if (not (dst == expected_dst)) (rejected "dst_mismatch")
    expected_pair ← some_or (canonical_pair_id lib src dst) uncaught
    raise_if (not (is_text expected_pair w.pair_id)) (rejected "pair_mismatch")
    msg_id ← some_or (full_text w.msg_id) malformed
    raise_if (is_none (decoded w.nonce)) malformed
    at ← from_result (time_of w.ts)
    raise_if (ltb tolerance (skew now at)) (rejected "ts_out_of_bounds")
    pure (src, msg_id, payload)

  unfoldable pub check_mac : Wire J → Field → Bytes → Exec Rejection (List Entry) (Unit {0})
  unfolding decoded bytes_eq
  check_mac w mac pair_secret = do
    received ← some_or (decoded mac) malformed
    bytes ← some_or (lib.canonicalize w) uncaught
    raise_if (not (bytes_eq (lib.hmac_sha256 pair_secret bytes) received)) (rejected "mac")

  -- The payload. The state is the cache of message ids; the check of it comes last.
  unfoldable pub verify_envelope :
      Limits → Wire J → Field → Bytes → String → Clocks → Exec Rejection (List Entry) J
  unfolding check_header check_mac check_and_record
  verify_envelope limits w mac pair_secret expected_dst clocks = do
    header ← check_header w mac expected_dst clocks.now
    check_mac w mac pair_secret
    entries ← get
    let fresh = check_and_record limits header.0 header.1 clocks.monotonic entries
    put fresh.1
    raise_if (not fresh.0) (rejected "replay")
    pure header.2
