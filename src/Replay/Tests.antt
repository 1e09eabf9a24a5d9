-- ===== src/Replay/Tests.antt =====
-- A cache of two entries that live for ten seconds.
use th_layer_agent.Common.{true, false, [], ◌∷◌, ◌≡◌, refl, arith}
use th_layer_agent.Replay.{Limits, check_and_record}
use th_layer_agent.Replay.Refused.{Attempt, attempts, Within, check_and_record-replay}

abbrev limits : Limits
limits = record { ttl = 10; max = 2 }

abbrev other : Attempt
other = record { src = "b"; msg = "m2"; now = 3 }

run : Unit {0}
unfolding check_and_record attempts Within
run = tt

first : (check_and_record limits "a" "m1" 1 []).0 ≡ true
unfolding run
first = refl

in_time : Within limits 1 (other ∷ [])
unfolding run
in_time = (omega arith, tt)

check_and_record-replay_example :
    (check_and_record limits "a" "m1" 5
      (attempts limits (other ∷ []) (check_and_record limits "a" "m1" 1 []).1)).0
    ≡ false
check_and_record-replay_example =
    check_and_record-replay limits "a" "m1" 1 5 [] (other ∷ []) first in_time (omega arith)
      (omega arith)

-- Two calls in between push the entry out of this cache, and the replay is accepted.
pushed_out :
    (check_and_record limits "a" "m1" 5 (
      attempts limits
        (other ∷ record { src = "b"; msg = "m3"; now = 4 } ∷ [])
        (check_and_record limits "a" "m1" 1 []).1)).0
    ≡ true
unfolding run
pushed_out = refl
