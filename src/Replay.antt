-- ===== src/Replay.antt =====
-- aigrp/envelope.py: the cache of message ids that tells a replayed envelope from a fresh one.
pub mod Refused
mod Tests
use th_layer_agent.Common.{
  ℕ, ◌+◌, ltb, String, Bool, true, false, ◌&&◌, ◌||◌, List, [], ◌∷◌, ◌++◌, ◌==◌, length,
  if◌then◌else◌,
}

-- One entry of the ordered dictionary, in the order of insertion.
pub record Entry : Type 0 where
  pub src_l2_id : String
  pub msg_id : String
  pub recorded : ℕ

pub record Limits : Type 0 where
  pub ttl : ℕ
  pub max : ℕ

-- `key in entries`
unfoldable pub seen : String → String → List Entry → Bool
seen src msg [] = false
seen src msg (e ∷ entries) = (e.src_l2_id == src) && (e.msg_id == msg) || seen src msg entries

module _ (limits : Limits) where
  -- drops the oldest entries while they are older than the time to live
  unfoldable pub evict_expired : ℕ → List Entry → List Entry
  evict_expired now [] = []
  evict_expired now (e ∷ entries) =
      if ltb (e.recorded + limits.ttl) now then evict_expired now entries else e ∷ entries

  -- `popitem(last=False)` where the size is over the cap
  unfoldable pub cap : List Entry → List Entry
  cap [] = []
  cap (e ∷ entries) = if ltb limits.max (length (e ∷ entries)) then entries else e ∷ entries

  unfoldable pub check_and_record : String → String → ℕ → List Entry → Bool × List Entry
  unfolding seen evict_expired cap
  check_and_record src msg now entries =
      let kept = evict_expired now entries in
      if seen src msg kept
      then (false, kept)
      else (true, cap (kept ++ (record { src_l2_id = src; msg_id = msg; recorded = now }) ∷ []))
